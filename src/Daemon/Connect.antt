-- ===== src/Daemon/Connect.antt =====
-- doConnect and verifyIdentity of pkg/daemon/daemon.go.
pub mod Identified
use go_goodwe.Base.{
  ℕ, List, [], ◌∷◌, ◌++◌, Option, none, some, Bool, true, false, not, ◌&&◌, ◌==◌, if◌then◌else◌,
  ◌⊎◌, inl, inr,
}
use go_goodwe.Base.Text.{Text, codes, equal_text, is_empty}
use go_goodwe.Base.Program.{Program, ◌>>=◌, ◌>>◌, pure}
use go_goodwe.Et.Value.{Float64}
use go_goodwe.Daemon.World.{
  disconnected, connecting, connected, failed, Identity, World, Config, Daemon, System, attempt,
  caught, get_daemon, set_daemon, fail, set_state,
}

module _ {fl : Float64} (w : World fl) (config : Config) where
  unfoldable pub mismatch_message : Text → Text → Text
  mismatch_message expected got =
      codes "serial mismatch: expected "
      ++ (w.quote expected
          ++ (codes ", got " ++ (w.quote got ++ codes " (inverter may have been replaced)")))

  -- Both errors are only logged.
  abbrev pub purge : Identity → Program (System w) (Unit {0})
  purge info = do _ ← attempt w (w.purge_bad_samples info.rated_power); pure tt

  -- The first connection with this database stores the identity.
  unfoldable pub store_identity : Identity → Program (System w) (Unit {0})
  store_identity info = do
    stored ← attempt w (w.set_identity info)
    elim stored [
      | inr e ↦ fail w (codes "store inverter identity: " ++ e)
      | inl _ ↦ do
        d ← get_daemon w
        set_daemon w (record d { inverter_identity = some info })
        purge info
    ]

  -- A later one compares the serial numbers.
  unfoldable pub compare_identity : Identity → Identity → Program (System w) (Unit {0})
  unfolding mismatch_message
  compare_identity stored info = do
    d ← get_daemon w
    set_daemon w (record d { inverter_identity = some stored })
    if equal_text stored.serial info.serial
        then (do _ ← attempt w (w.set_identity info); purge info)
        else set_daemon w (record d {
          inverter_identity = some stored;
          verification_err = some (mismatch_message stored.serial info.serial);
        })

  unfoldable pub verify_identity : Program (System w) (Unit {0})
  unfolding store_identity compare_identity
  verify_identity = do
    read ← attempt w w.get_info
    elim read [
      | inr e ↦ fail w (codes "get inverter info: " ++ e)
      | inl info ↦
          (if not config.has_store then pure tt else (do
            found ← attempt w w.get_identity
            elim found [
              | inr e ↦ fail w (codes "read stored identity: " ++ e)
              | inl none ↦ store_identity info
              | inl (some stored) ↦ compare_identity stored info
            ]))
    ]

  -- closeConnection
  unfoldable pub close_connection : Program (System w) (Unit {0})
  close_connection = do _ ← attempt w w.inverter_close; pure tt

  -- The second half of doConnect.
  unfoldable pub identified : Program (System w) (Unit {0})
  unfolding close_connection
  identified = do
    verified ← caught w verify_identity
    elim verified [
      | inr e ↦ do close_connection; set_state w disconnected (some e)
      | inl _ ↦ do
        d ← get_daemon w
        elim d.verification_err [
          | some e ↦ set_state w failed (some e)
          | none ↦ set_state w connected none
        ]
    ]

  unfoldable pub do_connect : Program (System w) (Unit {0})
  unfolding identified
  do_connect = do
    set_state w connecting none
    answer ← attempt w w.inverter_connect
    elim answer [
      | inr e ↦
          (if not (is_empty config.inverter_ip)
            then (do _ ← attempt w (w.ping config.inverter_ip); set_state w disconnected (some e))
            else set_state w disconnected (some e))
      | inl _ ↦ identified
    ]
