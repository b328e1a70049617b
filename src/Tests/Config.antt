-- ===== src/Tests/Config.antt =====
-- A configuration file whose first content is replaced by another after its first load.
use ship_status_dash.Base.{
  ℕ, String, ◌≡◌, ◌≢◌, refl, sym, Bool, true, false, arith, [], ◌∷◌, Bytes, ok, nat_eq, ◌==◌,
  if◌then◌else◌,
}
use ship_status_dash.Config.{File, Manager, new_manager, reload_if_changed, get}
use ship_status_dash.Config.Laws.{IsFile, stay, go, world, reload_if_changed-IsServed}

-- The world counts the accesses to the file.
abbrev bytes_if : Bool → Bytes
bytes_if true = 1 ∷ []
bytes_if false = 2 ∷ []

abbrev content : ℕ → Bytes
content n = bytes_if (n == 0)

abbrev name : Bytes → String
name [] = ""
name (b ∷ bs) = if b == 1 then "first" else "second"

abbrev file : File ℕ String
file = record {
  read = λ n. (ok (content n), n);
  load = λ n. (ok (name (content n)), 1);
  hash = name;
}

abbrev manager : Manager ℕ String
manager = record { config = "first"; update_callbacks = []; last_hash = "second" }

-- The first load and the hash after it see different contents.
created : new_manager file 0 ≡ (ok manager, 1)
unfolding new_manager
created = refl

-- The second content is not loaded, since its hash is taken for that of the first.
missed : reload_if_changed file manager 1 ≡ (manager, 1)
unfolding reload_if_changed
missed = refl

first_is_not_second : ◌≢◌ {A = String} "first" "second"
first_is_not_second e = cc e

-- A file that only the world changes.
abbrev steady : File ℕ String
steady = record {
  read = λ n. (ok (content n), n);
  load = λ n. (ok (name (content n)), n);
  hash = name;
}

content_injective : (a b : Bool) → name (bytes_if a) ≡ name (bytes_if b) → bytes_if a ≡ bytes_if b
content_injective true true e = refl
content_injective true false e = absurd (first_is_not_second e)
content_injective false true e = absurd (first_is_not_second (sym e))
content_injective false false e = refl

steady-IsFile : IsFile steady (λ b. ok (name b)) (λ n. ok (content n))
steady-IsFile = record {
  read_lem = λ s. refl;
  read_keeps = λ s. refl;
  load_lem = λ s b h. ground (arith, h);
  load_missing = λ s c h. (content s, refl);
  load_keeps = λ s. refl;
  hash_injective = λ s t a b h k e.
      let same = content_injective (s == 0) (t == 0) (cc (h, k, e)) in cc (h, k, same);
}

abbrev first_manager : Manager ℕ String
first_manager = record { config = "first"; update_callbacks = []; last_hash = "first" }

steady_created : new_manager steady 0 ≡ (ok first_manager, 0)
unfolding new_manager
steady_created = refl

-- The world replaces the content, and the next tick brings the second one.
reload_if_changed-IsServed_example :
    get steady (reload_if_changed steady first_manager 1).0 ≡ "second"
reload_if_changed-IsServed_example =
    reload_if_changed-IsServed steady (λ b. ok (name b)) (λ n. ok (content n)) steady-IsFile
      first_manager first_manager 0 0 1 steady_created (go world stay)
