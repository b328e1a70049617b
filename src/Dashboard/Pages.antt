-- ===== src/Dashboard/Pages.antt =====
-- The cache of pages from other servers: `ExternalPageCache` (cmd/dashboard/external_page_handler.go).
-- A page is a list of bytes. `others` is what other goroutines do between the two locks of `Get`;
-- within a lock, nobody else changes the cache. The URL of the request is not modelled.
pub mod Laws
pub mod Script
use ship_status_dash.Base.{
  ℕ, ◌+◌, ◌-◌, Bytes, String, Bool, true, false, not, ◌&&◌, List, [], ◌∷◌, Result, ok, err, ◌==◌,
  nat_eq, if◌then◌else◌, ltb, length,
}
use ship_status_dash.Env.{Error, failed}

pub record PageCache : Type 0 where
  pub content : Bytes
  pub fetched_at : ℕ
  pub ttl : ℕ

-- A response of the server. `read n` reads at most `n` bytes of its body.
pub record PageResponse : Type 0 where
  pub status_code : ℕ
  pub read : ℕ → Result Error Bytes

abbrev pub max_page_size : ℕ
max_page_size = 10485760

abbrev pub checked_body : Result Error Bytes → Result Error Bytes
checked_body (err e) = err (failed "reading external page body")
checked_body (ok body) =
    if ltb max_page_size (length body) then err (failed "external page body too large") else ok body

abbrev pub checked_response : Result Error PageResponse → Result Error Bytes
checked_response (err e) = err (failed "fetching external page")
checked_response (ok r) =
    if not (r.status_code == 200)
    then err (failed "external page returned status")
    else checked_body (r.read (max_page_size + 1))

abbrev pub is_empty : Bytes → Bool
is_empty [] = true
is_empty (b ∷ bs) = false

abbrev pub is_fresh : PageCache → ℕ → Bool
is_fresh c now = not (is_empty c.content) && ltb (now - c.fetched_at) c.ttl

module _ {S : Type 0} (clock : S → ℕ × S) (request : S → Result Error PageResponse × S) where
  unfoldable pub fetch : S → Result Error Bytes × S
  fetch s = let (r, s') = request s in (checked_response r, s')

  -- After a fetch: the page becomes the content, or the old content is served, if there is any.
  abbrev pub store : PageCache → Result Error Bytes × S → Result Error Bytes × PageCache × S
  store c (ok body, s) =
      let (now, s') = clock s in (ok body, record c { content = body; fetched_at = now }, s')
  store c (err e, s) = if is_empty c.content then (err e, c, s) else (ok c.content, c, s)

  -- `Get` under the write lock.
  unfoldable pub get_locked : PageCache → S → Result Error Bytes × PageCache × S
  unfolding fetch
  get_locked c s =
      let (now, s') = clock s in
      if is_fresh c now then (ok c.content, c, s') else store c (fetch s')

  unfoldable pub get :
      (PageCache × S → PageCache × S) → PageCache → S → Result Error Bytes × PageCache × S
  unfolding get_locked
  get others c s =
      let (now, s') = clock s in
      let (c', t) = others (c, s') in
      if is_fresh c now then (ok c.content, c, s') else get_locked c' t
