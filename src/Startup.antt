-- ===== src/Startup.antt =====
-- run, healthcheck and serve of cmd/server/main.go: the command line, the checks before the server
-- listens, and its end. What other packages answer is an argument.
pub mod Checks
use personal_yt_downloader.Common.{
  ℕ, String, Bool, true, false, ◌&&◌, ◌||◌, not, Option, none, some, List, [], ◌∷◌, ltb, ◌==◌,
  if◌then◌else◌, length,
}
use personal_yt_downloader.Common.Text.{Text, codes, text_eq, has_prefix, trim_space}
use personal_yt_downloader.Password.{is_empty}

-- What the first argument asks for.
pub data Command : Type 0 where
  check_health : Command
  print_usage : Command
  unknown_command : Text → Command
  serve_with : List Text → Command

-- The arguments behind the program's name.
unfoldable pub run : List Text → Command
run [] = serve_with []
run (first ∷ rest) =
    if text_eq first (codes "healthcheck")
    then check_health
    else if text_eq first (codes "-h")
        || text_eq first (codes "--help")
        || text_eq first (codes "help")
    then print_usage
    else if not (has_prefix first (codes "-"))
    then unknown_command first
    else serve_with (first ∷ rest)

-- The status of the answer, none if there is none; the error, if any.
unfoldable pub healthcheck : Option ℕ → Option String
healthcheck none = some "The service is unavailable."
healthcheck (some status) = if not (status == 200) then some "The service is unhealthy." else none

-- What the packages answer before the server listens, in the order of the calls, with the values of
-- the flags and of the environment. `proxies` is none if the list of proxies is refused.
pub record Environment (Prefix : Type 0) : Type 0 where
  pub flags_err : Option String
  pub proxies : Option (List Prefix)
  pub makes_root : Bool
  pub password : Text
  pub api_token : Text
  pub recover_err : Bool
  pub insecure : Bool

-- The settings that the server is built from.
pub record Settings (Prefix : Type 0) : Type 0 where
  pub password : Text
  pub api_token : Text
  pub insecure : Bool
  pub proxies : List Prefix

pub data Started (Prefix : Type 0) : Type 0 where
  refused : String → Started Prefix
  listening : Settings Prefix → Started Prefix

module _ {Prefix : Type 0} where
  -- From the reading of the environment on.
  unfoldable pub start_with : Environment Prefix → List Prefix → Started Prefix
  unfolding is_empty
  start_with e proxies =
      let api_token = trim_space e.api_token in
      if not e.makes_root
      then refused "Unable to create the data directory."
      else if is_empty e.password
      then refused "PASSWORD must be set to a non-empty password."
      else if ltb 1024 (length e.password)
      then refused "PASSWORD is too long (over 1024 characters)."
      else if ltb 1024 (length api_token)
      then refused "API_TOKEN is too long (over 1024 characters)."
      else if e.recover_err
      then refused "Unable to read the stored jobs"
      else listening (record {
        password = e.password;
        api_token = api_token;
        insecure = e.insecure;
        proxies = proxies;
      })

  unfoldable pub serve : Environment Prefix → Started Prefix
  unfolding start_with
  serve e = elim e.flags_err [
    | some text ↦ refused text
    | none ↦ elim e.proxies [
      | none ↦ refused "invalid -trusted-proxies entry"
      | some proxies ↦ start_with e proxies
    ]
  ]

-- How the service ends: the listener stops, with ErrServerClosed or another error, or a signal comes.
pub data Ending : Type 0 where
  server_closed : Ending
  listener_failed : String → Ending
  signalled : Ending

-- The calls at the end, in their order.
pub data Action : Type 0 where
  stop_pruning close_manager shut_down close_server : Action

-- The error that serve returns, and its last calls; the deferred `manager.Close` is the last.
-- `shuts_down` says that the shutdown succeeds in time.
unfoldable pub finish : Ending → Bool → Option String × List Action
finish server_closed shuts_down = (none, stop_pruning ∷ close_manager ∷ [])
finish (listener_failed e) shuts_down = (some e, stop_pruning ∷ close_manager ∷ [])
finish signalled shuts_down = (
  none,
  close_manager
      ∷ shut_down
      ∷ (if shuts_down
          then stop_pruning ∷ close_manager ∷ []
          else close_server ∷ stop_pruning ∷ close_manager ∷ []),
)
