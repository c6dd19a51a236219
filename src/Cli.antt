-- ===== src/Cli.antt =====
-- cmd/sandbox: the command line. The parsed flags, config.Load and the system are arguments.
pub mod Doctor
pub mod Serve
pub mod Commands
use Prim.Native.String.{◌++◌ as str_append}
use web_sandbox.Client.{Client, new_http, new_unix}
use web_sandbox.Config.{Config}
use web_sandbox.Common.{
  String, Result, ok, err, ◌==◌, if◌then◌else◌, Eq-String, Option, none, not, some, ◌/◌,
}

-- strings.TrimPrefix and strings.TrimSuffix, the text first.
pub record Trims : Type 0 where
  pub trim_prefix : String → String → String
  pub trim_suffix : String → String → String

-- The flags that commands share.
pub record Flags : Type 0 where
  pub socket : String
  pub gw_addr : String
  pub gw_addr_token : String

unfoldable pub strip_scheme : Trims → String → String
strip_scheme t s = t.trim_suffix (t.trim_prefix (t.trim_prefix s "http://") "https://") "/"

-- A client with the socket that it dials, if it does not use TCP.
unfoldable pub dial_client :
    Trims → Flags → Result String Config → Result String (Config × Client × Option String)
unfolding strip_scheme
dial_client t f (err e) = err e
dial_client t f (ok cfg) =
    if not (f.gw_addr == "")
    then ok (
      cfg,
      new_http (strip_scheme t f.gw_addr)
          (if f.gw_addr_token == "" then cfg.gateway_token else f.gw_addr_token),
      none,
    )
    else ok (cfg, new_unix, some (if not (f.socket == "") then f.socket else cfg.socket_path))
