-- ===== src/Errors/Outcome.antt =====
-- Postconditions of a function that returns a status code.
use mathlib.Core.Path.{◌≡◌, refl, subst, sym}
use mathlib.Core.Bool.{Bool, true, false}
use threaded_db_api_server.Prelude.{if◌then◌else◌}
use threaded_db_api_server.Errors.{Status, out_of_rounds, as_status, Result, ok, err, ◌>>=◌}

-- A status of the source, which a call returned.
abbrev pub IsReturned : Status → Type 0
IsReturned out_of_rounds = ⊥
IsReturned _ = Unit

-- What a success returns has the property, and a failure was returned.
pub data Ensures {ℓ κ} {A : Type ℓ} (Post : A → Type κ) : Result A → Type (ℓ ⊔ κ) where
  refuses : {status : Status} → IsReturned status → Ensures Post (err status)
  delivers : {value : A} → Post value → Ensures Post (ok value)

-- A weaker property of the same result.
pub Ensures-map {ℓ κ μ} :
    {A : Type ℓ} {Post : A → Type κ} {Weaker : A → Type μ} {result : Result A}
    → Ensures Post result
    → ((value : A) → Post value → Weaker value)
    → Ensures Weaker result
Ensures-map (refuses returned) weaken = refuses returned
Ensures-map (delivers {value} post) weaken = delivers (weaken value post)

-- One call behind another.
pub Ensures-bind {ℓ ℓ' κ κ'} :
    {A : Type ℓ} {Mid : A → Type κ} {B : Type ℓ'} {Post : B → Type κ'} {call : Result A}
    {behind : A → Result B}
    → Ensures Mid call
    → ((value : A) → Mid value → Ensures Post (behind value))
    → Ensures Post (call >>= behind)
Ensures-bind (refuses returned) next = refuses returned
Ensures-bind (delivers {value} mid) next = next value mid

pub Ensures-if {ℓ κ} :
    {A : Type ℓ} {Post : A → Type κ} {on_true on_false : Result A} (test : Bool)
    → (test ≡ true → Ensures Post on_true)
    → (test ≡ false → Ensures Post on_false)
    → Ensures Post (if test then on_true else on_false)
Ensures-if false first second = second refl
Ensures-if true first second = first refl

pub Ensures-ok {ℓ κ} :
    {A : Type ℓ} {Post : A → Type κ} {result : Result A} {value : A}
    → Ensures Post result
    → result ≡ ok value
    → Post value
Ensures-ok (refuses status) returned = absurd (cc returned)
Ensures-ok {Post} (delivers post) returned = subst Post (cc) post

-- A call that returns: with a value, or with a status of the source.
abbrev pub Returns {ℓ} : {A : Type ℓ} → Result A → Type ℓ
Returns result = Ensures (λ value. Unit {0}) result

pub Ensures-Returns {ℓ κ} :
    {A : Type ℓ} {Post : A → Type κ} {result : Result A} → Ensures Post result → Returns result
Ensures-Returns post = Ensures-map post λ value h. tt

-- A call whose failures have one status.
pub Returns-one {ℓ} :
    {A : Type ℓ} (status : Status) (result : Result A)
    → IsReturned status
    → ((e : Status) → result ≡ err e → e ≡ status)
    → Returns result
Returns-one status (ok value) h only = delivers tt
Returns-one status (err e) h only = refuses (subst IsReturned (sym (only e refl)) h)

pub as_status-IsReturned :
    (e status : Status) → IsReturned e → IsReturned status → IsReturned (as_status e status)
as_status-IsReturned out_of_rounds status h k = absurd h
as_status-IsReturned _ status h k = k
