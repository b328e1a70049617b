-- ===== src/Config/Laws.antt =====
-- A tick brings readers up to date with the file, in whatever order things happened before.
use ship_status_dash.Base.{
  ◌≡◌, ◌∙◌, sym, ap, eq_iff, subst, refl, Bool, true, false, Bytes, [], Result, ok, err, ◌==◌,
  string_eq,
}
use ship_status_dash.Env.{Error}
use ship_status_dash.Config.{
  File, Manager, new_manager, started, reloaded, reload_for, reload_after, reload_if_changed, get,
  on_update, initial_hash,
}

module _ {S T : Type 0} (file : File S T) where
  -- What can happen to a manager in its world: a tick, a new callback, or anything outside.
  infix 40 ◌⟶◌ ◌⟶*◌
  pub data ◌⟶◌ : Manager S T × S → Manager S T × S → Type 0 where
    tick : {m : Manager S T} {s : S} → (m, s) ⟶ reload_if_changed file m s
    register :
        {m : Manager S T} {s : S} (callback : T → S → S) → (m, s) ⟶ (on_update file callback m, s)
    world : {m : Manager S T} {s t : S} → (m, s) ⟶ (m, t)

  pub data ◌⟶*◌ : Manager S T × S → Manager S T × S → Type 0 where
    stay : {p : Manager S T × S} → p ⟶* p
    go : {p q r : Manager S T × S} → p ⟶ q → q ⟶* r → p ⟶* r

-- What a tick makes readers see, by the file's content: the configuration that the content parses to, or
-- the one before if the file cannot be read or is refused.
abbrev pub kept_or : {T : Type 0} → T → Result Error T → T
kept_or before (ok config) = config
kept_or before (err e) = before

abbrev pub up_to_date : {T : Type 0} → (Bytes → Result Error T) → T → Result Error Bytes → T
up_to_date parse before (ok bytes) = kept_or before (parse bytes)
up_to_date parse before (err e) = before

-- The file of which a read gives the content and a load what the content parses to, neither changing it.
-- It may change at any other time. No two contents that it ever has have the same hash.
pub record IsFile {S T : Type 0} (file : File S T) (parse : Bytes → Result Error T)
    (contents : S → Result Error Bytes) : Type 0 where
  pub read_lem : (s : S) → (file.read s).0 ≡ contents s
  pub read_keeps : (s : S) → contents (file.read s).1 ≡ contents s
  pub load_lem : (s : S) (b : Bytes) → contents s ≡ ok b → (file.load s).0 ≡ parse b
  pub load_missing : (s : S) (c : T) → (file.load s).0 ≡ ok c → (b : Bytes) × (contents s ≡ ok b)
  pub load_keeps : (s : S) → contents (file.load s).1 ≡ contents s
  pub hash_injective :
      (s t : S) (a b : Bytes)
      → contents s ≡ ok a
      → contents t ≡ ok b
      → file.hash a ≡ file.hash b
      → a ≡ b

module _ {S T : Type 0} (file : File S T) (parse : Bytes → Result Error T)
    (contents : S → Result Error Bytes) (law : IsFile file parse contents) where
  -- The hash and the configuration are of the same content, which the file had at some time.
  abbrev IsCurrent : Manager S T → Type 0
  IsCurrent m =
      (b : Bytes) × (s : S) × (contents s ≡ ok b)
      × (m.last_hash ≡ file.hash b)
      × (parse b ≡ ok m.config)

  -- A manager that serves a configuration and is current.
  abbrev IsServed : T → Manager S T → Type 0
  IsServed config m = (m.config ≡ config) × IsCurrent m

  reloaded-IsServed :
      (m : Manager S T) (b : Bytes) (s : S) (r : Result Error T × S)
      → contents s ≡ ok b
      → r.0 ≡ parse b
      → IsCurrent m
      → IsServed (kept_or m.config (parse b)) (reloaded file m (file.hash b) r).0
  reloaded-IsServed m b s (err e, t) k h w = (rw (← h) refl, w)
  reloaded-IsServed m b s (ok config, t) k h w = (rw (← h) refl, (b, s, k, refl, sym h))

  reload_for-IsServed :
      (m : Manager S T) (b : Bytes) (same : Bool) (s : S)
      → (file.hash b == m.last_hash) ≡ same
      → contents s ≡ ok b
      → IsCurrent m
      → IsServed (kept_or m.config (parse b)) (reload_for file m (file.hash b) same s).0
  reload_for-IsServed m b true s e h (c, t, there, hashed, parsed) =
      let equal : c ≡ b =
        law.hash_injective t s c b there h
          (sym hashed ∙ sym ((eq_iff (file.hash b) m.last_hash).0 e)) in
      (rw (← equal) (rw parsed refl), (c, t, there, hashed, parsed))
  reload_for-IsServed m b false s e h w =
      reloaded-IsServed m b s (file.load s) h (law.load_lem s b h) w

  reload_after-IsServed :
      (m : Manager S T) (r : Result Error Bytes) (s : S)
      → contents s ≡ r
      → IsCurrent m
      → IsServed (up_to_date parse m.config r) (reload_after file m (r, s)).0
  reload_after-IsServed m (err e) s h w = (refl, w)
  reload_after-IsServed m (ok b) s h w =
      reload_for-IsServed m b (file.hash b == m.last_hash) s refl h w

  tick-IsServed :
      (m : Manager S T) (s : S)
      → IsCurrent m
      → IsServed (up_to_date parse m.config (contents s)) (reload_if_changed file m s).0
  unfolding reload_if_changed
  tick-IsServed m s w = rw (← law.read_lem s) (
      reload_after-IsServed m (file.read s).0 (file.read s).1
        (law.read_keeps s ∙ sym (law.read_lem s)) w)

  steps-IsCurrent : {p q : Manager S T × S} → (◌⟶*◌ file) p q → IsCurrent p.0 → IsCurrent q.0
  unfolding on_update
  steps-IsCurrent stay w = w
  steps-IsCurrent {p = (m, s)} (go tick more) w = steps-IsCurrent more (tick-IsServed m s w).1
  steps-IsCurrent (go (register callback) more) w = steps-IsCurrent more w
  steps-IsCurrent (go world more) w = steps-IsCurrent more w

  started-IsCurrent :
      (m : Manager S T) (s t : S) (r : Result Error T × S)
      → file.load s ≡ r
      → started file r ≡ (ok m, t)
      → IsCurrent m
  started-IsCurrent m s t (err e, u) h k = cc
  started-IsCurrent m s t (ok config, u) h k =
      let (b, there) = law.load_missing s config (ap (λ x. x.0) h) in
      let read : (file.read u).0 ≡ ok b =
        law.read_lem u ∙ ap (λ x. contents x.1) (sym h) ∙ law.load_keeps s ∙ there in
      let parsed : parse b ≡ ok config = sym (law.load_lem s b there) ∙ ap (λ x. x.0) h in
      let same : m ≡ record {
        config = config;
        update_callbacks = [];
        last_hash = initial_hash file (file.read u).0;
      } =
        cc in
      subst IsCurrent (sym same) (b, s, there, ap (initial_hash file) read, parsed)

  -- If the file does not change while the manager reads or loads it and different contents have
  -- different hashes, then after any sequence of ticks, registrations of callbacks and changes of the
  -- world, a tick makes a manager that was created serve what the file's content parses to; it keeps the
  -- configuration before the tick if the file cannot be read or its content is refused.
  pub reload_if_changed-IsServed :
      (m m' : Manager S T) (s t u : S)
      → new_manager file s ≡ (ok m, t)
      → (◌⟶*◌ file) (m, t) (m', u)
      → get file (reload_if_changed file m' u).0 ≡ up_to_date parse (get file m') (contents u)
  unfolding new_manager get
  reload_if_changed-IsServed m m' s t u h steps =
      (tick-IsServed m' u (steps-IsCurrent steps (started-IsCurrent m s t (file.load s) refl h))).0
