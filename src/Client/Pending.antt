-- ===== src/Client/Pending.antt =====
-- client.ts: the map of pending requests, whose ids are distinct.
use vcv_rack_mcp.Prelude.{
  ℕ, ◌+◌, ◌≡◌, refl, String, List, [], ◌∷◌, ◌++◌, none, some, lookup, insert, delete, lookup-insert,
  lookup-delete, arith, eq_iff,
}
use vcv_rack_mcp.Client.{Effect, reject_pending, reject_waiters, Failure}
use vcv_rack_mcp.Client.Events.{waiting, settled}

-- No id stands twice.
unfoldable pub IsKeyed : List (String × ℕ) → Type 0
IsKeyed [] = Unit
IsKeyed ((id, p) ∷ entries) = (lookup id entries ≡ none) × IsKeyed entries

delete-none :
    (id : String) (entries : List (String × ℕ))
    → lookup id entries ≡ none
    → delete id entries ≡ entries
unfolding lookup delete
delete-none id [] h = refl
delete-none id ((name, q) ∷ entries) h = ground (arith, eq_iff name id, delete-none id entries)

pub IsKeyed-delete :
    (id : String) (entries : List (String × ℕ)) → IsKeyed entries → IsKeyed (delete id entries)
unfolding IsKeyed delete
IsKeyed-delete id [] k = tt
IsKeyed-delete id ((name, q) ∷ entries) k = ground (
  arith,
  IsKeyed-delete id entries,
  lookup-delete id name entries,
  eq_iff name id,
  eq_iff id name,
)

pub IsKeyed-insert :
    (id : String) (p : ℕ) (entries : List (String × ℕ))
    → IsKeyed entries
    → IsKeyed (insert id p entries)
unfolding IsKeyed insert lookup
IsKeyed-insert id p [] k = (refl, tt)
IsKeyed-insert id p ((name, q) ∷ entries) k = ground (
  arith,
  IsKeyed-insert id p entries,
  lookup-insert id name p entries,
  eq_iff name id,
  eq_iff id name,
)

-- A fresh entry adds one promise, and taking an entry out takes one away.
pub waiting-insert :
    (x : ℕ) (id : String) (p : ℕ) (entries : List (String × ℕ))
    → lookup id entries ≡ none
    → waiting x (insert id p entries) ≡ waiting x ((id, p) ∷ entries)
unfolding waiting insert lookup
waiting-insert x id p [] h = refl
waiting-insert x id p ((name, q) ∷ entries) h = ground (arith, waiting-insert x id p entries)

pub waiting-delete :
    (x : ℕ) (id : String) (p : ℕ) (entries : List (String × ℕ))
    → IsKeyed entries
    → lookup id entries ≡ some p
    → waiting x entries ≡ waiting x ((id, p) ∷ delete id entries)
unfolding waiting IsKeyed lookup delete
waiting-delete x id p [] k h = absurd (ground arith)
waiting-delete x id p ((name, q) ∷ entries) k h =
    ground (arith, eq_iff name id, delete-none name entries, waiting-delete x id p entries)

pub delete-insert :
    (id : String) (p : ℕ) (entries : List (String × ℕ))
    → lookup id entries ≡ none
    → delete id (insert id p entries) ≡ entries
unfolding insert delete lookup
delete-insert id p [] h = ground (arith, eq_iff id id)
delete-insert id p ((name, q) ∷ entries) h =
    ground (arith, eq_iff name id, delete-insert id p entries)

pub settled-append :
    (x : ℕ) (es fs : List Effect) → settled x (es ++ fs) ≡ settled x es + settled x fs
unfolding settled
settled-append x [] fs = omega arith
settled-append x (Effect.resolved q j ∷ es) fs = ground (arith, settled-append x es fs)
settled-append x (Effect.rejected q j ∷ es) fs = ground (arith, settled-append x es fs)
settled-append x (_ ∷ es) fs = settled-append x es fs

pub settled-reject_pending :
    (x : ℕ) (entries : List (String × ℕ)) → settled x (reject_pending entries) ≡ waiting x entries
unfolding settled reject_pending waiting
settled-reject_pending x [] = refl
settled-reject_pending x ((id, p) ∷ entries) = ground (arith, settled-reject_pending x entries)

pub settled-reject_waiters :
    (x : ℕ) (reason : Failure) (waiters : List ℕ) → settled x (reject_waiters reason waiters) ≡ 0
unfolding settled reject_waiters
settled-reject_waiters x reason [] = refl
settled-reject_waiters x reason (p ∷ waiters) = settled-reject_waiters x reason waiters
