-- ===== src/Singleflight.antt =====
-- `Group.Do` of singleflight/singleflight.go: any number of invocations over one `callsMap`, in any
-- order of their accesses to it. An invocation is a number, and so is the `call` that it makes. What
-- the function of an invocation may return for a key, a value or an error, is the parameter `Result`.
pub mod Calm
pub mod Inv
pub mod Progress
mod Tests
use my_cache_go.Common.{
  ℕ, ◌≡◌, List, [], Option, none, some, Bool, true, false, ite, ℕ_discrete, Key, key_dec,
}
use my_cache_go.Common.Dict

-- Where an invocation stands.
pub data Pc (R : Type 0) : Type 0 where
  idle : Pc R
  started : Key → Pc R  -- before `Load`
  missed : Key → Pc R  -- between `Load` and `Store`
  running : Key → Pc R  -- in `fn`
  written : Key → Pc R  -- before `Done`
  deleting : Key → R → Pc R  -- between `Done` and `Delete`
  waiting : Key → ℕ → Pc R  -- in `Wait` of a call
  returned : Key → R → Pc R

-- `call`: the result, which is nil until `fn` has returned, and whether `Done` was called.
pub record Call (R : Type 0) : Type 0 where
  pub value : Option R
  pub done : Bool

pub record Group (R : Type 0) : Type 0 where
  pub calls_map : List (Key × ℕ)
  pub calls : ℕ → Call R
  pub pc : ℕ → Pc R

-- The family with another value at `i`.
abbrev pub put_at : {A : Type 0} → (ℕ → A) → ℕ → A → ℕ → A
put_at f i a j = ite (ℕ_discrete i j) a (f j)

abbrev pub new_call : {R : Type 0} → Call R
new_call = record { value = none; done = false }

-- No invocation has begun.
abbrev pub init : {R : Type 0} → Group R
init = record { calls_map = []; calls = λ i. new_call; pc = λ i. idle }

module _ {R : Type 0} (Result : Key → R → Type 0) where
  -- One step of the invocation `i`, which stands at `p`: the group without the place of `i`, and the
  -- place where `i` stands then.
  pub data Move (g : Group R) (i : ℕ) : Pc R → Group R → Pc R → Type 0 where
    begin : (key : Key) → Move g i idle g (started key)
    load_found :
        {key : Key} (j : ℕ)
        → Dict.find key_dec key g.calls_map ≡ some j
        → Move g i (started key) g (waiting key j)
    load_none :
        {key : Key}
        → Dict.find key_dec key g.calls_map ≡ none
        → Move g i (started key) g (missed key)
    store :
        {key : Key}
        → Move g i
            (missed key)
            (record g {
              calls_map = Dict.insert key_dec key i g.calls_map;
              calls = put_at g.calls i new_call;
            })
            (running key)
    run :
        {key : Key} (r : R)
        → Result key r
        → Move g i
            (running key)
            (record g { calls = put_at g.calls i (record { value = some r; done = false }) })
            (written key)
    finish :
        {key : Key} (r : R)
        → (g.calls i).value ≡ some r
        → Move g i
            (written key)
            (record g { calls = put_at g.calls i (record { value = some r; done = true }) })
            (deleting key r)
    forget :
        {key : Key} {r : R}
        → Move g i
            (deleting key r)
            (record g { calls_map = Dict.delete key_dec key g.calls_map })
            (returned key r)
    wake :
        {key : Key} {j : ℕ} (r : R)
        → (g.calls j).done ≡ true
        → (g.calls j).value ≡ some r
        → Move g i (waiting key j) g (returned key r)

  -- A step of some invocation.
  pub data Step (g : Group R) : Group R → Type 0 where
    pick :
        (i : ℕ) {g' : Group R} {p : Pc R}
        → Move g i (g.pc i) g' p
        → Step g (record g' { pc = put_at g.pc i p })

  pub data Reach : Group R → Type 0 where
    start : Reach init
    later : {g g' : Group R} → Reach g → Step g g' → Reach g'
