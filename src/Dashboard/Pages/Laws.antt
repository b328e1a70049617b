-- ===== src/Dashboard/Pages/Laws.antt =====
-- What the cache of pages serves.
use ship_status_dash.Base.{
  ℕ, Bytes, ◌+◌, ◌≤◌, ◌≡◌, refl, Bool, true, false, not, [], ◌∷◌, Result, ok, err, arith, length,
  if◌then◌else◌, ltb, ◌==◌, nat_eq,
}
use ship_status_dash.Env.{Error, failed}
use ship_status_dash.Dashboard.Pages.{
  PageCache, PageResponse, max_page_size, checked_body, checked_response, is_empty, is_fresh, fetch,
  store, get_locked, get,
}

-- A page is served and in the cache, or the cache is empty and stays as it was.
abbrev pub Served : {S : Type 0} → PageCache → Result Error Bytes × PageCache × S → Type 0
Served c r =
    ((body : Bytes) → r.0 ≡ ok body → r.1.content ≡ body)
    × ((e : Error) → r.0 ≡ err e → (c.content ≡ []) × (r.1 ≡ c))

abbrev pub IsBounded : PageCache → Type 0
IsBounded c = length c.content ≤ max_page_size

-- The cache that comes out of `Get` is bounded.
abbrev KeepsBound : {S : Type 0} → Result Error Bytes × PageCache × S → Type 0
KeepsBound r = IsBounded r.1

checked_body_bound :
    (r : Result Error Bytes) (body : Bytes) → checked_body r ≡ ok body → length body ≤ max_page_size
checked_body_bound (err e) body h = cc
checked_body_bound (ok b) body h = go (ltb max_page_size (length b)) refl h
  where
    go :
        (x : Bool)
        → ltb max_page_size (length b) ≡ x
        → (if x then err (failed "external page body too large") else ok b) ≡ ok body
        → length body ≤ max_page_size
    go true e h = cc
    go false e h =
        let small : length b ≤ max_page_size = ground (arith, e) in
        let same : b ≡ body = cc h in rw (← same) small

checked_response_bound :
    (r : Result Error PageResponse) (body : Bytes)
    → checked_response r ≡ ok body
    → length body ≤ max_page_size
checked_response_bound (err e) body h = cc
checked_response_bound (ok r) body h = go (not (r.status_code == 200)) h
  where
    go :
        (x : Bool)
        → (if x
            then err (failed "external page returned status")
            else checked_body (r.read (max_page_size + 1)))
          ≡ ok body
        → length body ≤ max_page_size
    go true h = cc
    go false h = checked_body_bound (r.read (max_page_size + 1)) body h

empty_lem : (b : Bytes) → is_empty b ≡ true → b ≡ []
empty_lem [] h = refl
empty_lem (x ∷ xs) h = cc

module _ {S : Type 0} (clock : S → ℕ × S) (request : S → Result Error PageResponse × S) where
  stale-Served :
      (x : Bool) (e : Error) (c : PageCache) (s : S)
      → is_empty c.content ≡ x
      → Served c (if x then (err e, c, s) else (ok c.content, c, s))
  stale-Served true e c s h = ((λ body k. cc), (λ e' k. (empty_lem c.content h, refl)))
  stale-Served false e c s h = ((λ body k. cc), (λ e' k. cc))

  store-Served : (c : PageCache) (f : Result Error Bytes × S) → Served c (store clock request c f)
  store-Served c (ok b, s) = ((λ body k. cc), (λ e k. cc))
  store-Served c (err e, s) = stale-Served (is_empty c.content) e c s refl

  -- Under the write lock, `Get` serves the page that the cache then holds; it fails only if the cache
  -- is empty, and then leaves it as it was. So a page that was cached is served when the server fails.
  pub get_locked-Served : (c : PageCache) (s : S) → Served c (get_locked clock request c s)
  unfolding get_locked
  get_locked-Served c s = let (now, s') = clock s in go (is_fresh c now) s'
    where
      go :
          (x : Bool) (t : S)
          → Served c
              (if x then (ok c.content, c, t) else store clock request c (fetch clock request t))
      go true t = ((λ body k. cc), (λ e k. cc))
      go false t = store-Served c (fetch clock request t)

  stale-IsBounded :
      (x : Bool) (e : Error) (c : PageCache) (s : S)
      → IsBounded c
      → KeepsBound (if x then (err e, c, s) else (ok c.content, c, s))
  stale-IsBounded true e c s b = b
  stale-IsBounded false e c s b = b

  store-IsBounded :
      (c : PageCache) (r : Result Error Bytes) (s : S)
      → ((body : Bytes) → r ≡ ok body → length body ≤ max_page_size)
      → IsBounded c
      → KeepsBound (store clock request c (r, s))
  store-IsBounded c (ok body) s h b = h body refl
  store-IsBounded c (err e) s h b = stale-IsBounded (is_empty c.content) e c s b

  get_locked-IsBounded :
      (c : PageCache) (s : S) → IsBounded c → IsBounded (get_locked clock request c s).1
  unfolding get_locked fetch
  get_locked-IsBounded c s b = let (now, s') = clock s in go (is_fresh c now) s'
    where
      go :
          (x : Bool) (t : S)
          → KeepsBound
              (if x then (ok c.content, c, t) else store clock request c (fetch clock request t))
      go true t = b
      go false t =
          let (r, u) = request t in
          store-IsBounded c (checked_response r) u (checked_response_bound r) b

  -- The cache never holds more than ten megabytes, if it did not before `Get` and if nothing that
  -- other goroutines do to it between the two locks makes it larger.
  pub get-IsBounded :
      (others : PageCache × S → PageCache × S) (c : PageCache) (s : S)
      → ((p : PageCache × S) → IsBounded p.0 → IsBounded (others p).0)
      → IsBounded c
      → IsBounded (get clock request others c s).1
  unfolding get
  get-IsBounded others c s keeps b =
      let (now, s') = clock s in
      let (c', t) = others (c, s') in go (is_fresh c now) s' c' t (keeps (c, s') b)
    where
      go :
          (x : Bool) (u : S) (d : PageCache) (t : S)
          → IsBounded d
          → KeepsBound (if x then (ok c.content, c, u) else get_locked clock request d t)
      go true u d t h = b
      go false u d t h = get_locked-IsBounded d t h
