-- ===== src/Webhook/Message.antt =====
-- The messages of webhook.py and how they are sent. The formatted time, `str.lower` and `json.dumps` are
-- parameters, and so is the exchange of `http.client`.
use Prim.Native.Char.{code}
use Prim.Native.String.{◌++◌ as ◌+++◌}
use crafty_server_watcher.Common.{
  ℕ, ◌*◌, ◌/◌, ◌==◌, leb, String, Bool, not, ◌||◌, Option, none, some, List, [], ◌∷◌, if◌then◌else◌,
  length, str_eq, ℤ, pos, negsuc, ltb_ℤ,
}
use crafty_server_watcher.Config.{second}
use crafty_server_watcher.Text.{contains}
use crafty_server_watcher.Utf8.{encode}
use crafty_server_watcher.Json.{Json, str, arr, obj, nil, cons, end, field, int}
use crafty_server_watcher.JsonText.{str_of_int}
use crafty_server_watcher.ServerState.{
  Effect, changed, api_stop, api_start, notify_crashed, notify_stopped, notify_started,
  notify_denied, disconnect,
}
use crafty_server_watcher.Webhook.{denied_cooldown}

pub record Notifier : Type 0 where
  pub url : String
  pub label : String
  pub cooldown : ℤ
  pub is_discord : Bool
  pub host : String
  pub port : Option ℕ
  pub path : String
  pub scheme : String

-- What `urlparse` finds in an address.
pub record Address : Type 0 where
  pub scheme : String
  pub hostname : Option String
  pub port : Option ℕ
  pub path : String
  pub query : String

host_or_empty : Option String → String
host_or_empty none = ""
host_or_empty (some name) = name

-- The constructor.
unfoldable pub new_notifier : String → Address → String → ℤ → Notifier
unfolding host_or_empty denied_cooldown
new_notifier url parsed label denied_cooldown_minutes = record {
  url = url;
  label = label;
  cooldown = denied_cooldown denied_cooldown_minutes;
  is_discord =
      contains "discord.com/api/webhooks" url || contains "discordapp.com/api/webhooks" url;
  host = host_or_empty parsed.hostname;
  port = parsed.port;
  path = parsed.path +++ (if str_eq parsed.query "" then "" else "?" +++ parsed.query);
  scheme = parsed.scheme;
}

-- The arguments of `_send`, but for the server's name.
pub record Message : Type 0 where
  pub title : String
  pub description : String
  pub color : ℕ

-- `int(seconds // 60)` of a time that is not negative.
unfoldable pub whole_minutes : ℤ → ℤ
whole_minutes (pos n) = pos (n / (60 * second))
whole_minutes (negsuc n) = pos 0

unfoldable pub started_message : String → String → String → Message
started_message server player source = record {
  title = "Server Starting";
  description =
      "🚀 **"
      +++ server
      +++ "** is starting up!"
      +++ (if not (str_eq player "")
          then "\nTriggered by player `" +++ player +++ "`"
          else if not (str_eq source "")
          then "\nTriggered from **" +++ source +++ "**"
          else "");
  color = 0x2ecc71;
}

idle_text : ℤ → String
unfolding whole_minutes
idle_text idle_seconds =
    if ltb_ℤ (pos 0) idle_seconds
    then "\nIdle for "
      +++ str_of_int (whole_minutes idle_seconds)
      +++ " minute"
      +++ plural (whole_minutes idle_seconds)
    else ""
  where
    plural : ℤ → String
    plural (pos n) = if n == 1 then "" else "s"
    plural (negsuc n) = "s"

unfoldable pub stopped_message : String → ℤ → String → Message
unfolding idle_text
stopped_message server idle_seconds source = record {
  title = "Server Stopped";
  description =
      if not (str_eq source "")
      then "💤 **" +++ server +++ "** was stopped.\nStopped from **" +++ source +++ "**"
      else "💤 **" +++ server +++ "** was shut down due to inactivity." +++ idle_text idle_seconds;
  color = 0xf1c40f;
}

-- The message of `notify_denied`, with the count that is reported.
unfoldable pub denied_message : ℤ → String → String → String → ℕ → Message
unfolding whole_minutes
denied_message cooldown server player peer suppressed = record {
  title = "Wake-up Denied";
  description =
      "🚫 Wake-up refused on **"
      +++ server
      +++ "**.\nPlayer `"
      +++ player
      +++ "`"
      +++ (if str_eq peer "" then "" else " from `" +++ peer +++ "`")
      +++ " is not whitelisted — the server was left asleep."
      +++ (if suppressed == 0
          then ""
          else "\n*"
            +++ str_of_int (pos suppressed)
            +++ " further attempt(s) in the last "
            +++ str_of_int (whole_minutes cooldown)
            +++ " min not shown.*");
  color = 0x3498db;
}

unfoldable pub crashed_message : String → Message
crashed_message server = record {
  title = "Server Crashed";
  description = "❌ **" +++ server +++ "** has crashed!";
  color = 0xe74c3c;
}

-- `.replace(" ", "_")`
underscored : String → String
underscored String.[] = ""
underscored (String.◌∷◌ c s) =
    let rest = underscored s in if code c == 32 then "_" +++ rest else String.◌∷◌ c rest

-- `_build_discord_payload`
unfoldable pub build_discord_payload : Notifier → String → Message → Json
build_discord_payload n time m = obj (
    field "embeds"
      (arr (
        cons
          (obj (
            field "title" (str m.title) (
              field "description" (str m.description) (
                field "color" (int (pos m.color)) (
                  field "timestamp" (str time) (
                    if str_eq n.label ""
                    then end
                    else field "footer" (obj (field "text" (str n.label) end)) end))))))
          nil))
      end)

-- `int(time.time())` is the wall clock in seconds.
unfoldable pub payload : (String → String) → Notifier → String → ℤ → String → Message → Json
unfolding build_discord_payload underscored
payload lower n time wall server m =
    if n.is_discord
    then build_discord_payload n time m
    else obj (
        field "event" (str (underscored (lower m.title))) (
          field "server" (str server)
            (field "message" (str m.description) (field "timestamp" (int wall) end))))

pub record Post : Type 0 where
  pub secure : Bool
  pub host : String
  pub port : Option ℕ
  pub path : String
  pub body : List ℕ
  pub headers : List (String × String)

-- `_post_json` up to its request.
unfoldable pub post_json : (Json → String) → Notifier → Json → Post
post_json dumps n value =
    let body = encode (dumps value) in
    record {
      secure = str_eq n.scheme "https";
      host = n.host;
      port = n.port;
      path = n.path;
      body = body;
      headers =
          ("Content-Type", "application/json")
          ∷ ("Content-Length", str_of_int (pos (length body)))
          ∷ [];
    }

-- How the request ends: with a status, or with an exception.
pub data Answered : Type 0 where
  status : ℕ → Answered
  exception : Answered

-- What `_send` logs in the end; it never raises.
pub data Report : Type 0 where
  delivered refused failed : Report

unfoldable pub report : Answered → Report
report (status n) = if leb 400 n then refused else delivered
report exception = failed

-- The message of a notification that a machine's trace has. A denial has one unless it is swallowed: its
-- rate limit is `notify_denied` of Webhook.
unfoldable pub message_of : ℤ → ℕ → Effect → Option (String × Message)
message_of cooldown suppressed (notify_crashed name) = some (name, crashed_message name)
message_of cooldown suppressed (notify_stopped name idle_seconds source) =
    some (name, stopped_message name idle_seconds source)
message_of cooldown suppressed (notify_started name player source) =
    some (name, started_message name player source)
message_of cooldown suppressed (notify_denied name player peer) =
    some (name, denied_message cooldown name player peer suppressed)
message_of cooldown suppressed (changed sm) = none
message_of cooldown suppressed (api_stop id) = none
message_of cooldown suppressed (api_start id) = none
message_of cooldown suppressed (disconnect reason) = none
