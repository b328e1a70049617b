-- ===== src/Tests/Lawful.antt =====
-- The world in memory behaves as the program relies on.
use ship_status_dash.Base.{
  ℕ, ◌≤◌, ◌<◌, ◌≡◌, refl, ap, sym, ◌≢◌, inl, inr, Bool, true, false, ◌&&◌, List, [], ◌∷◌, ◌++◌, map,
  Result, ok, err, arith, count, select, Any, Bool-cases, ◌==◌, nat_eq, if◌then◌else◌,
}
use ship_status_dash.Types.Outage.{Outage, bare}
use ship_status_dash.Types.Config.{DashboardConfig}
use ship_status_dash.Env.{Error, record_not_found, Context, Hooks}
use ship_status_dash.Env.Lawful.{Tables, put_row, remove_row, Created, Saved, Deleted, IsLawful}
use ship_status_dash.Tests.World.{
  view, next_id, first_of, commit, then_commit, rows, with_rows, numbered, added, finish_save,
  finish_delete, in_transaction, world_db, world,
}

count-select :
    (q p : Outage → Bool) (l : List Outage)
    → count (λ o. p (bare o)) (select q (map bare l)) ≡ count (λ o. q o && p o) (map bare l)
count-select q p [] = refl
count-select q p (r ∷ rs) = ground (arith, count-select q p rs)

first_of_lem :
    (p : Outage → Bool) (l : List Outage) (o : Outage)
    → first_of p (map bare l) ≡ ok o
    → (p (bare o) ≡ true) × Any (λ r. r ≡ bare o) (map bare l) × (o.id ≢ 0)
first_of_lem p [] o h = cc
first_of_lem p (r ∷ rs) o h = elim (Bool-cases (p (bare r))) [
  | inl e ↦ elim (Bool-cases (r.id == 0)) [
    | inl zero ↦ cc (rw zero at (rw e at h))
    | inr other ↦
        let same : o ≡ bare r = cc (rw other at (rw e at h)) in
        (cc, inl (ap bare (sym same)), ground (arith, other, same))
  ]
  | inr e ↦ let (a, b, c) = first_of_lem p rs o (rw e at h) in (a, inr b, c)
]

first_of_missing :
    (p : Outage → Bool) (l : List Outage) → first_of p l ≡ err record_not_found → count p l ≡ 0
first_of_missing p [] h = refl
first_of_missing p (r ∷ rs) h = ground (arith, first_of_missing p rs)

pub next_id-fresh : (l : List Outage) (n : ℕ) → next_id l ≤ n → count (λ r. r.id == n) l ≡ 0
next_id-fresh [] n h = refl
next_id-fresh (r ∷ rs) n h = ground (arith, next_id-fresh rs n, next_id-pos rs)
  where
    next_id-pos : (l : List Outage) → 0 < next_id l
    next_id-pos [] = omega arith
    next_id-pos (r ∷ rs) = omega (arith, next_id-pos rs)

bare-append :
    (l : List Outage) (o : Outage)
    → map bare (map bare l ++ (bare o ∷ [])) ≡ map bare l ++ (bare o ∷ [])
bare-append [] o = refl
bare-append (r ∷ rs) o = ap (λ t. bare r ∷ t) (bare-append rs o)

bare-if :
    (b : Bool) (x y : List Outage)
    → map bare x ≡ x
    → map bare y ≡ y
    → map bare (if b then x else y) ≡ (if b then x else y)
bare-if true x y e f = e
bare-if false x y e f = f

bare-bare : (l : List Outage) → map bare (map bare l) ≡ map bare l
bare-bare [] = refl
bare-bare (r ∷ rs) = ap (λ t. bare r ∷ t) (bare-bare rs)

bare-put_row :
    (o : Outage) (l : List Outage) → map bare (put_row o (map bare l)) ≡ put_row o (map bare l)
bare-put_row o [] = refl
bare-put_row o (r ∷ rs) =
    bare-if (r.id == o.id) (bare o ∷ map bare rs) (bare r ∷ put_row o (map bare rs))
      (ap (λ t. bare o ∷ t) (bare-bare rs)) (ap (λ t. bare r ∷ t) (bare-put_row o rs))

bare-remove_row :
    (i : ℕ) (l : List Outage) → map bare (remove_row i (map bare l)) ≡ remove_row i (map bare l)
bare-remove_row i [] = refl
bare-remove_row i (r ∷ rs) =
    bare-if (r.id == i) (map bare rs) (bare r ∷ remove_row i (map bare rs)) (bare-bare rs)
      (ap (λ t. bare r ∷ t) (bare-remove_row i rs))

ok_injective : {A : Type 0} {a b : A} (x : Result Error A) → x ≡ ok a → x ≡ ok b → a ≡ b
ok_injective x h k = cc

commit_ok :
    {A : Type 0} (a b : A) (s : Tables) (r : Result Error (Unit {0}) × Tables)
    → (commit a s r).0 ≡ ok b
    → (b ≡ a) × (r ≡ (ok tt, r.1)) × ((commit a s r).1 ≡ r.1)
commit_ok a b s (ok tt, t) h = (cc, refl, refl)
commit_ok a b s (err e, t) h = cc

commit_err :
    {A : Type 0} (a : A) (s : Tables) (r : Result Error (Unit {0}) × Tables) (e : Error)
    → (commit a s r).0 ≡ err e
    → (commit a s r).1 ≡ s
commit_err a s (ok _, t) e h = cc
commit_err a s (err x, t) e h = refl

module _ (cfg : DashboardConfig) where
  world-create_ok :
      (h : Hooks Tables) (c : Context) (o o' : Outage) (s : Tables)
      → (world_db.create h c o s).0 ≡ ok o'
      → Created view h c o o' s (world_db.create h c o s).1
  world-create_ok h c o o' s e =
      let r = h.after_create c (numbered o s) (added o s) in
      let (same, done, final) = commit_ok (numbered o s) o' s r e in
      record {
        written = added o s;
        hooked = r.1;
        only_id = rw same;
        fresh = rw same (next_id-fresh (rows s) (next_id (rows s)) (omega arith));
        outages = rw same (bare-append s.outages (numbered o s));
        audit_logs = refl;
        reasons = rw same;
        hook = rw same done;
        committed = ap view final;
      }

  finish_save_ok :
      (h : Hooks Tables) (c : Context) (o o' : Outage) (s : Tables)
      (b : Result Error Context × Tables)
      → h.before_update c o s ≡ b
      → (then_commit s b (finish_save h o s)).0 ≡ ok o'
      → Saved view h c o o' s (then_commit s b (finish_save h o s)).1
  finish_save_ok h c o o' s (err x, t) d e = cc
  finish_save_ok h c o o' s (ok ctx, t) d e =
      let r = h.after_update ctx o (with_rows (put_row o (rows t)) t) in
      let (same, done, final) = commit_ok o o' s r e in
      record {
        ctx' = ctx;
        prepared = t;
        written = with_rows (put_row o (rows t)) t;
        hooked = r.1;
        same = same;
        before = d;
        outages = bare-put_row o t.outages;
        audit_logs = refl;
        after = done;
        committed = ap view final;
      }

  finish_save_err :
      (h : Hooks Tables) (o : Outage) (x : Error) (s : Tables) (b : Result Error Context × Tables)
      → (then_commit s b (finish_save h o s)).0 ≡ err x
      → (then_commit s b (finish_save h o s)).1 ≡ s
  finish_save_err h o x s (err y, t) e = refl
  finish_save_err h o x s (ok ctx, t) e = commit_err o s _ x e

  finish_delete_ok :
      (h : Hooks Tables) (c : Context) (o : Outage) (s : Tables) (b : Result Error Context × Tables)
      → h.before_delete c o s ≡ b
      → (then_commit s b (finish_delete h o s)).0 ≡ ok tt
      → Deleted view h c o s (then_commit s b (finish_delete h o s)).1
  finish_delete_ok h c o s (err x, t) d e = cc
  finish_delete_ok h c o s (ok ctx, t) d e =
      let r = h.after_delete ctx o (with_rows (remove_row o.id (rows t)) t) in
      let (same, done, final) = commit_ok tt tt s r e in
      record {
        ctx' = ctx;
        prepared = t;
        written = with_rows (remove_row o.id (rows t)) t;
        hooked = r.1;
        before = d;
        outages = bare-remove_row o.id t.outages;
        audit_logs = refl;
        after = done;
        committed = ap view final;
      }

  finish_delete_err :
      (h : Hooks Tables) (o : Outage) (x : Error) (s : Tables) (b : Result Error Context × Tables)
      → (then_commit s b (finish_delete h o s)).0 ≡ err x
      → (then_commit s b (finish_delete h o s)).1 ≡ s
  finish_delete_err h o x s (err y, t) e = refl
  finish_delete_err h o x s (ok ctx, t) e = commit_err tt s _ x e

  transaction_ok :
      (s : Tables) (r : Result Error Outage × Tables) (o : Outage)
      → (in_transaction s r).0 ≡ ok o
      → (r.0 ≡ ok o) × (view (in_transaction s r).1 ≡ view r.1)
  transaction_ok s (ok o', t) o h = (h, refl)
  transaction_ok s (err e, t) o h = cc

  transaction_err :
      (s : Tables) (r : Result Error Outage × Tables) (e : Error)
      → (in_transaction s r).0 ≡ err e
      → view (in_transaction s r).1 ≡ view s
  transaction_err s (ok o', t) e h = cc
  transaction_err s (err x, t) e h = refl

  pub world-IsLawful : IsLawful (world cfg) view
  world-IsLawful = record {
    now_keeps = λ s. refl;
    find_keeps = λ q s. refl;
    find_rows = λ q s l h p. rw (← ok_injective _ refl h) (count-select q.filter p s.outages);
    first_keeps = λ q s. refl;
    first_row = λ q s o h. first_of_lem q.filter s.outages o h;
    first_missing = λ q s h. first_of_missing q.filter (rows s) h;
    create_ok = world-create_ok;
    create_err = λ h c o e s f. ap view (commit_err (numbered o s) s _ e f);
    save_ok = λ h c o o' s n f. finish_save_ok h c o o' s (h.before_update c o s) refl f;
    save_err = λ h c o e s f. ap view (finish_save_err h o e s (h.before_update c o s) f);
    delete_ok = λ h c o s f. finish_delete_ok h c o s (h.before_delete c o s) refl f;
    delete_err = λ h c o e s f. ap view (finish_delete_err h o e s (h.before_delete c o s) f);
    transaction_ok = λ m o s h. transaction_ok s (m s) o h;
    transaction_err = λ m e s h. transaction_err s (m s) e h;
    audit_others = λ a s. (refl, refl);
    audit_ok = λ a a' s h. (rw (← ok_injective _ refl h), rw (← ok_injective _ refl h));
    audit_find_keeps = λ q s. refl;
    reason_ok = λ r r' s h. refl;
    thread_keeps = λ t s. refl;
    threads_keeps = λ q s. refl;
    post_keeps = λ c m t s. refl;
    react_keeps = λ n c t s. refl;
    ping_first_keeps = λ q s. refl;
    ping_create_keeps = λ p s. refl;
    ping_save_keeps = λ p s. refl;
  }
