-- ===== src/Daemon/Connect/Identified.antt =====
-- What doConnect may leave behind.
use go_goodwe.Base.{some, true, false, ◌≡◌, arith}
use go_goodwe.Base.Text.{equal_text}
use go_goodwe.Base.Result.{ok}
use go_goodwe.Et.Value.{Float64}
use go_goodwe.Daemon.World.{failed, Identity, World, Config, Daemon, set_state}
use go_goodwe.Daemon.Connect.{
  mismatch_message, compare_identity, verify_identity, identified, do_connect,
}

module _ {fl : Float64} (w : World fl) (config : Config) where
  -- With a database, an inverter that answers with another serial number than the stored one puts
  -- the daemon into the Failed state with the mismatch as its error, and nothing is written: the
  -- database is as the three reads left it.
  pub do_connect-mismatch :
      (d : Daemon) (s t u v : w.voltage.State) (info stored : Identity)
      → config.has_store ≡ true
      → w.inverter_connect s ≡ (ok tt, t)
      → w.get_info t ≡ (ok info, u)
      → w.get_identity u ≡ (ok (some stored), v)
      → equal_text stored.serial info.serial ≡ false
      → do_connect w config (d, s) ≡ (
        ok tt,
        (
          record {
            conn_state = failed;
            conn_err = some (mismatch_message w config stored.serial info.serial);
            verification_err = some (mismatch_message w config stored.serial info.serial);
            inverter_identity = some stored;
          },
          v,
        ),
      )
  unfolding set_state do_connect identified verify_identity compare_identity
  do_connect-mismatch d s t u v info stored database opened told found other =
      ground (arith, database, opened, told, found, other)
