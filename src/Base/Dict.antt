-- ===== src/Base/Dict.antt =====
-- Go's maps with string keys, as association lists. Each key stands once, in insertion order.
use Prim.Native.String.{String}
use text.Mathlib.Text.{◌==◌ as str_eq}
use text.Mathlib.TextEquality.{eq_iff}
use mathlib.Core.Path.{◌≡◌, refl, sym, ◌∙◌}
use mathlib.Core.Logic.{inl, inr}
use mathlib.Core.Bool.{Bool, true, false}
use mathlib.Core.Option.{Option, none, some}
use mathlib.Core.List.{List, [], ◌∷◌}
use native.Mathlib.Omega.{arith}
use text.Mathlib.TextPositions.{eq_refl}
use mlx_mesh.Base.Tests.{if◌then◌else◌, String-cases, Bool-cases}
use mlx_mesh.Base.Lists.{All, none-ne-some}

abbrev pub Dict {ℓ} : Type ℓ → Type ℓ
Dict V = List (String × V)

module _ {ℓ} {V : Type ℓ} where
  -- `v, ok := m[k]`
  unfoldable pub lookup : String → Dict V → Option V
  lookup k [] = none
  lookup k (e ∷ m) = if str_eq e.0 k then some e.1 else lookup k m

  -- `m[k] = v`
  unfoldable pub insert : String → V → Dict V → Dict V
  insert k v [] = (k, v) ∷ []
  insert k v (e ∷ m) = if str_eq e.0 k then (k, v) ∷ m else e ∷ insert k v m

  -- `delete(m, k)`
  unfoldable pub erase : String → Dict V → Dict V
  erase k [] = []
  erase k (e ∷ m) = let rest = erase k m in if str_eq e.0 k then rest else e ∷ rest

  -- `for k, v := range m { if drop { delete(m, k) } }`
  unfoldable pub sweep : (String → V → Bool) → Dict V → Dict V
  sweep p [] = []
  sweep p (e ∷ m) = let rest = sweep p m in if p e.0 e.1 then rest else e ∷ rest

  -- Reads after a write, in a form with no side condition.
  pub lookup-insert :
      (k j : String) (v : V) (m : Dict V)
      → lookup j (insert k v m) ≡ (if str_eq k j then some v else lookup j m)
  unfolding lookup insert
  lookup-insert k j v [] = refl
  lookup-insert k j v (e ∷ m) =
      ground (arith, eq_iff k j, eq_iff e.0 k, eq_iff e.0 j, lookup-insert k j v m)

  pub lookup-erase :
      (k j : String) (m : Dict V) → lookup j (erase k m) ≡ (if str_eq k j then none else lookup j m)
  unfolding lookup erase
  lookup-erase k j [] = ground arith
  lookup-erase k j (e ∷ m) =
      ground (arith, eq_iff k j, eq_iff e.0 k, eq_iff e.0 j, lookup-erase k j m)

  -- A sweep adds no key.
  pub lookup-sweep-none :
      (p : String → V → Bool) (j : String) (m : Dict V)
      → lookup j m ≡ none
      → lookup j (sweep p m) ≡ none
  unfolding lookup sweep
  lookup-sweep-none p j [] h = refl
  lookup-sweep-none p j (e ∷ m) h = ground (arith, lookup-sweep-none p j m)

module _ {ℓ} {V : Type ℓ} where
  -- Each key stands once.
  abbrev pub IsDistinct : Dict V → Type ℓ
  IsDistinct [] = Unit
  IsDistinct (e ∷ m) = (lookup e.0 m ≡ none) × IsDistinct m

  pub lookup-insert_ne :
      (k j : String) (v : V) (m : Dict V)
      → str_eq k j ≡ false
      → lookup j (insert k v m) ≡ lookup j m
  lookup-insert_ne k j v m h = lookup-insert k j v m ∙ rw h

  pub lookup-nil : (k : String) → lookup {V = V} k [] ≡ none
  unfolding lookup
  lookup-nil k = refl

  pub insert-IsDistinct :
      (k : String) (v : V) (m : Dict V) → IsDistinct m → IsDistinct (insert k v m)
  unfolding insert
  insert-IsDistinct k v [] d = (lookup-nil k, tt)
  insert-IsDistinct k v (e ∷ m) d =
      ground
        (arith, eq_iff e.0 k, eq_iff k e.0, lookup-insert_ne k e.0 v m, insert-IsDistinct k v m d.1)

  pub lookup-cons :
      (k j : String) (v : V) (m : Dict V)
      → lookup j ((k, v) ∷ m) ≡ (if str_eq k j then some v else lookup j m)
  unfolding lookup
  lookup-cons k j v m = refl

  -- What holds of whatever `lookup` finds holds of every entry.
  pub All-of_lookup {κ} :
      (P : String → V → Type κ) (m : Dict V)
      → IsDistinct m
      → ((u : String) (v : V) → lookup u m ≡ some v → P u v)
      → All (λ e. P e.0 e.1) m
  All-of_lookup P [] d h = tt
  All-of_lookup P ((k, v) ∷ m) d h =
      (h k v (lookup-cons k k v m ∙ rw (eq_refl k)), All-of_lookup P m d.1 rest)
    where
      rest : (u : String) (w : V) → lookup u m ≡ some w → P u w
      rest u w e = elim (String-cases k u) [
        | inl same ↦ absurd (none-ne-some w (sym d.0 ∙ rw (← same) at e))
        | inr differs ↦ h u w (rw (lookup-cons, differs) e)
      ]

  -- What holds of every entry holds after a write of such an entry, of what is found, and after a sweep.
  pub All-insert {κ} :
      (P : String → V → Type κ) (k : String) (v : V) (m : Dict V)
      → P k v
      → All (λ e. P e.0 e.1) m
      → All (λ e. P e.0 e.1) (insert k v m)
  unfolding insert
  All-insert P k v [] here h = (here, tt)
  All-insert P k v (e ∷ m) here h = elim (Bool-cases (str_eq e.0 k)) [
    | inl same ↦ rw (same, insert) (here, h.1)
    | inr differs ↦ rw (differs, insert) (h.0, All-insert P k v m here h.1)
  ]

  pub All-lookup {κ} :
      (P : String → V → Type κ) (k : String) (v : V) (m : Dict V)
      → All (λ e. P e.0 e.1) m
      → lookup k m ≡ some v
      → P k v
  unfolding lookup
  All-lookup P k v [] h found = absurd (none-ne-some v found)
  All-lookup P k v ((j, w) ∷ m) h found = elim (String-cases j k) [
    | inl same ↦
        (let here : w ≡ v = some-inj w v (rw (same, eq_refl, lookup) at found) in
          rw (← same, ← here) h.0)
    | inr differs ↦ All-lookup P k v m h.1 (rw (differs, lookup) at found)
  ]
    where
      some-inj : (a b : V) → ◌≡◌ {A = Option V} (some a) (some b) → a ≡ b
      some-inj a b e = cc

  pub All-sweep {κ} :
      (P : String → V → Type κ) (p : String → V → Bool) (m : Dict V)
      → All (λ e. P e.0 e.1) m
      → All (λ e. P e.0 e.1) (sweep p m)
  unfolding sweep
  All-sweep P p [] h = tt
  All-sweep P p (e ∷ m) h = elim (Bool-cases (p e.0 e.1)) [
    | inl swept ↦ rw (swept, sweep) (All-sweep P p m h.1)
    | inr kept ↦ rw (kept, sweep) (h.0, All-sweep P p m h.1)
  ]

  -- A sweep keeps what its test spares, and the keys distinct.
  pub lookup-sweep :
      (p : String → V → Bool) (k : String) (v : V) (m : Dict V)
      → lookup k m ≡ some v
      → p k v ≡ false
      → lookup k (sweep p m) ≡ some v
  unfolding lookup sweep
  lookup-sweep p k v [] found spared = found
  lookup-sweep p k v ((j, w) ∷ m) found spared = ground (arith, eq_iff j k, lookup-sweep p k v m)

  pub sweep-IsDistinct :
      (p : String → V → Bool) (m : Dict V) → IsDistinct m → IsDistinct (sweep p m)
  unfolding sweep
  sweep-IsDistinct p [] d = tt
  sweep-IsDistinct p (e ∷ m) d = elim (Bool-cases (p e.0 e.1)) [
    | inl swept ↦ rw (swept, sweep) (sweep-IsDistinct p m d.1)
    | inr kept ↦ rw (kept, sweep) (lookup-sweep-none p e.0 m d.0, sweep-IsDistinct p m d.1)
  ]

  -- What the test takes is gone.
  pub lookup-swept :
      (p : String → V → Bool) (k : String) (v : V) (m : Dict V)
      → IsDistinct m
      → lookup k m ≡ some v
      → p k v ≡ true
      → lookup k (sweep p m) ≡ none
  unfolding lookup sweep
  lookup-swept p k v [] d found taken = absurd (none-ne-some v found)
  lookup-swept p k v ((j, w) ∷ m) d found taken = elim (String-cases j k) [
    | inl same ↦
        (let here : w ≡ v = some-inj w v (rw (same, eq_refl, lookup) at found) in
          let gone : p j w ≡ true = rw (same, here) taken in
          rw (gone, sweep) (lookup-sweep-none p k m (rw same at d.0)))
    | inr differs ↦
        (let rest : lookup k (sweep p m) ≡ none =
            lookup-swept p k v m d.1 (rw (differs, lookup) at found) taken in
          elim (Bool-cases (p j w)) [
            | inl swept ↦ rw (swept, sweep) rest
            | inr kept ↦ rw (kept, sweep, lookup-cons, differs) rest
          ])
  ]
    where
      some-inj : (a b : V) → ◌≡◌ {A = Option V} (some a) (some b) → a ≡ b
      some-inj a b e = cc
