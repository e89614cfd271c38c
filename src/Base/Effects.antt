-- ===== src/Base/Effects.antt =====
-- Code that acts on the world and may raise: what was done stays done after a raise.
use Prim.Native.String.{String}
use mathlib.Core.Path.{◌≡◌, refl}
use mathlib.Core.Bool.{Bool, true, false}
use native.Mathlib.Omega.{arith}

-- The exceptions that the program raises and tells apart.
pub data Error : Type 0 where
  value_error : String → Error
  key_error : String → Error
  integrity_error : String → Error
  runtime_error : String → Error
  programming_error : String → Error
  database_error : String → Error

-- `str(exc)` for the exceptions above.
abbrev pub message : Error → String
message (value_error s) = s
message (key_error s) = s
message (integrity_error s) = s
message (runtime_error s) = s
message (programming_error s) = s
message (database_error s) = s

pub data Result {ℓ} (A : Type ℓ) : Type ℓ where
  ok : A → Result A
  err : Error → Result A

abbrev pub is_ok {ℓ} : {A : Type ℓ} → Result A → Bool
is_ok (ok _) = true
is_ok (err _) = false

abbrev pub Exec : Type 0 → Type 0 → Type 0
Exec W A = W → Result A × W

module _ {W A : Type 0} where
  abbrev pub pure : A → Exec W A
  pure a w = (ok a, w)

  abbrev pub raise : Error → Exec W A
  raise e w = (err e, w)

  abbrev pub gets : (W → A) → Exec W A
  gets f w = (ok (f w), w)

  -- What an `except Exception` clause makes of a run of its block.
  abbrev pub handle : Result A × W → (Error → Exec W A) → Result A × W
  handle (ok a, w) handler = (ok a, w)
  handle (err e, w) handler = handler e w

  -- `try: m  except Exception as exc: handler(exc)`
  abbrev pub catch : Exec W A → (Error → Exec W A) → Exec W A
  catch m handler w = handle (m w) handler

-- What follows a run of the first action.
abbrev pub bind_result : {W A B : Type 0} → Result A × W → (A → Exec W B) → Result B × W
bind_result (ok a, w) f = f a w
bind_result (err e, w) f = (err e, w)

infixl 5 ◌>>=◌ ◌>>◌
abbrev pub ◌>>=◌ : {W A B : Type 0} → Exec W A → (A → Exec W B) → Exec W B
m >>= f = λ w. bind_result (m w) f

abbrev pub ◌>>◌ : {W A B : Type 0} → Exec W A → Exec W B → Exec W B
m >> k = m >>= λ _. k

abbrev pub skip : {W : Type 0} → Exec W (Unit {0})
skip w = (ok tt, w)

abbrev pub modify : {W : Type 0} → (W → W) → Exec W (Unit {0})
modify f w = (ok tt, f w)

-- `if c: m`
abbrev pub when : {W : Type 0} → Bool → Exec W (Unit {0}) → Exec W (Unit {0})
when true m = m
when false m = skip

-- Inversion of a successful sequence.
pub >>=-eq-ok :
    {W A B : Type 0} (m : Exec W A) (f : A → Exec W B) (w : W) {b : B} {w'' : W}
    → (m >>= f) w ≡ (ok b, w'')
    → (a : A) × (w' : W) × (m w ≡ (ok a, w')) × (f a w' ≡ (ok b, w''))
>>=-eq-ok {W} {A} {B} m f w {b} {w''} h = go (m w) refl h
  where
    go :
        (r : Result A × W)
        → m w ≡ r
        → bind_result r f ≡ (ok b, w'')
        → (a : A) × (w' : W) × (m w ≡ (ok a, w')) × (f a w' ≡ (ok b, w''))
    go (ok a, w') e h = (a, w', e, h)
    go (err x, w') e h = absurd (ground arith)

-- An action that goes on with one that keeps the state ends in the state of the first.
pub >>=-state :
    {W A B : Type 0} (m : Exec W A) (f : A → Exec W B) (w : W)
    → ((a : A) (v : W) → (f a v).1 ≡ v)
    → ((m >>= f) w).1 ≡ (m w).1
>>=-state {W} {A} {B} m f w kept = go (m w)
  where
    go : (r : Result A × W) → (bind_result r f).1 ≡ r.1
    go (ok a, v) = kept a v
    go (err e, v) = refl

-- A handler that keeps the state.
pub catch-state :
    {W A : Type 0} (m : Exec W A) (h : Error → Exec W A) (w : W)
    → ((e : Error) (v : W) → (h e v).1 ≡ v)
    → (catch m h w).1 ≡ (m w).1
catch-state {W} {A} m h w kept = go (m w)
  where
    go : (r : Result A × W) → (handle r h).1 ≡ r.1
    go (ok a, v) = refl
    go (err e, v) = kept e v
