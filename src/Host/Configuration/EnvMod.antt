-- ===== src/Host/Configuration/EnvMod.antt =====
-- `rust/src/core/host/configuration/env_mod.rs`: changes of the environment of a plugin, and their text.
-- A text is the list of its characters, as code points.
use dqcsim_rs.Common.{
  ℕ, ◌≡◌, ◌≢◌, ◌↔◌, refl, subst, false, Bool-cases, ◌==◌, if◌then◌else◌, List, [], ◌∷◌, ◌++◌, All,
  arith, inl, inr,
}

pub data EnvMod : Type 0 where
  set : List ℕ → List ℕ → EnvMod
  remove : List ℕ → EnvMod

-- `splitn(2, '=')`, with an empty text for a second part that is not there.
unfoldable pub split_equals : List ℕ → List ℕ × List ℕ
split_equals [] = ([], [])
split_equals (c ∷ s) =
    let (key, value) = split_equals s in if c == b'=' then ([], s) else (c ∷ key, value)

-- `from_str`, which never fails.
unfoldable pub from_str : List ℕ → EnvMod
unfolding split_equals
from_str [] = set [] []
from_str (c ∷ s) =
    let (key, value) = split_equals (c ∷ s) in if c == b'~' then remove s else set key value

unfoldable pub display : EnvMod → List ℕ
display (set key value) = key ++ (b'=' ∷ value)
display (remove key) = b'~' ∷ key

-- A key that its text shows: one without an equals sign, which does not start with a tilde.
abbrev pub StartsWithTilde : List ℕ → Type 0
StartsWithTilde [] = ⊥
StartsWithTilde (c ∷ key) = c ≡ b'~'

abbrev pub IsPrintable : EnvMod → Type 0
IsPrintable (set key value) = All (λ c. c ≢ b'=') key × ¬ (StartsWithTilde key)
IsPrintable (remove key) = Unit

split_equals-append :
    (key value : List ℕ)
    → All (λ c. c ≢ b'=') key
    → split_equals (key ++ (b'=' ∷ value)) ≡ (key, value)
unfolding split_equals
split_equals-append [] value h = refl
split_equals-append (c ∷ key) value h =
    let e : (c == b'=') ≡ false = ground arith in rw (e, split_equals-append key value h.1)

-- What is split off has no equals sign.
split_equals-key : (s : List ℕ) → All (λ c. c ≢ b'=') (split_equals s).0
unfolding split_equals
split_equals-key [] = tt
split_equals-key (c ∷ s) = elim (Bool-cases (c == b'=')) [
  | inl e ↦ rw e tt
  | inr e ↦ rw e (ne c e, split_equals-key s)
]
  where
    ne : (c : ℕ) → (c == b'=') ≡ false → c ≢ b'='
    ne c e q = ground arith

-- A change is read back from its text exactly if it removes a variable, or sets one whose name has no
-- equals sign and does not start with a tilde.
pub from_str-display_iff : (m : EnvMod) → (from_str (display m) ≡ m) ↔ IsPrintable m
unfolding from_str display
from_str-display_iff (remove key) = (λ e. tt, λ h. refl)
from_str-display_iff (set [] value) = (λ e. (tt, λ x. x), λ h. refl)
from_str-display_iff (set (c ∷ key) value) = (read, λ h. reads h)
  where
    parts : List ℕ × List ℕ
    parts = split_equals (c ∷ (key ++ (b'=' ∷ value)))

    read :
        (if c == b'~' then remove (key ++ (b'=' ∷ value)) else set parts.0 parts.1)
          ≡ set (c ∷ key) value
        → All (λ x. x ≢ b'=') (c ∷ key) × ¬ (c ≡ b'~')
    read e = elim (Bool-cases (c == b'~')) [
      | inl t ↦ absurd (cc (rw t at e))
      | inr t ↦
          let e' : set parts.0 parts.1 ≡ set (c ∷ key) value = rw t at e in
          let key_eq : parts.0 ≡ c ∷ key = cc e' in
          (
            subst (All (λ x. x ≢ b'=')) key_eq (split_equals-key (c ∷ (key ++ (b'=' ∷ value)))),
            λ q. ground arith,
          )
    ]

    reads :
        All (λ x. x ≢ b'=') (c ∷ key) × ¬ (c ≡ b'~')
        → (if c == b'~' then remove (key ++ (b'=' ∷ value)) else set parts.0 parts.1)
          ≡ set (c ∷ key) value
    reads h =
        let t : (c == b'~') ≡ false = ground arith in
        let e : parts ≡ (c ∷ key, value) = split_equals-append (c ∷ key) value h.0 in rw (t, e)
