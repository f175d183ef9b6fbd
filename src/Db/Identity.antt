-- ===== src/Db/Identity.antt =====
-- GetInverterIdentity and SetInverterIdentity.
use go_goodwe.Base.{ℕ, List, [], ◌∷◌, Option, none, some, if◌then◌else◌}
use go_goodwe.Base.Text.{codes, equal_text}
use go_goodwe.Base.Program.{Program}
use go_goodwe.Et.Value.{Float64}
use go_goodwe.Daemon.World.{Identity}
use go_goodwe.Db.Tables.{IdentityRow, Tables, Engine, statement}

abbrev pub first_identity : List IdentityRow → Option Identity
first_identity [] = none
first_identity (row ∷ rows) = some row.identity

-- The row of the same serial number is updated and keeps its first_seen.
unfoldable pub upsert_identity : Identity → ℕ → List IdentityRow → List IdentityRow
upsert_identity new now [] = record { identity = new; first_seen = now; last_seen = now } ∷ []
upsert_identity new now (row ∷ rows) =
    if equal_text row.identity.serial new.serial
    then record row { identity = new; last_seen = now } ∷ rows
    else row ∷ upsert_identity new now rows

module _ {fl : Float64} (engine : Engine fl) where
  unfoldable pub get_inverter_identity : Program (Tables fl) (Option Identity)
  get_inverter_identity =
      statement engine (codes "failed to read inverter identity: ")
        (λ t. (first_identity t.identities, t))

  unfoldable pub set_inverter_identity : ℕ → Identity → Program (Tables fl) (Unit {0})
  unfolding upsert_identity
  set_inverter_identity now new =
      statement engine (codes "failed to set inverter identity: ")
        (λ t. (tt, record t { identities = upsert_identity new now t.identities }))
