-- ===== src/Policy.antt =====
-- agent/updates/policy.go over agent/storage/settings.go: the operator's update policy.
--
-- The settings table is an association list. A value is the text of a row, or the row that SetJSON
-- wrote: the JSON codec is Go's, so a structured value stands for its encoding. The calls of the
-- database succeed here. All rows under one key have one shape, so a read of another shape does not
-- arise; it is an error.
pub mod Window
pub mod Laws
mod Tests
use qrx_node_suite.Prelude.{
  ℕ, ◌+◌, ◌*◌, ◌≡◌, refl, String, Bool, true, false, not, ◌&&◌, ◌||◌, Option, none, some, List, [],
  ◌∷◌, ltb, leb, eqb, if◌then◌else◌, ◌==◌,
}
use qrx_node_suite.Errors.{Err, Result, ok, err, invalid_channel, bad_json}

-- The weekday is time.Weekday's, the times are hours and minutes of a day; a window that was stored
-- with a negative number is outside the model.
pub record ScheduledWindow : Type 0 where
  pub weekday : ℕ
  pub start_hour : ℕ
  pub start_minute : ℕ
  pub end_hour : ℕ
  pub end_minute : ℕ

pub record PendingSelfUpdate : Type 0 where
  pub component : String
  pub from_version : String
  pub to_version : String
  pub channel : String
  pub history_id : ℕ

-- A row's key is a prefix and what follows it: no two prefixes of the program overlap.
pub data Key : Type 0 where
  update_channel pin last_manifest_released_at boot_attempts pending_self_update : String → Key
  update_lock scheduled_update_window : Key

pub data Setting : Type 0 where
  text : String → Setting
  number : ℕ → Setting
  window : ScheduledWindow → Setting
  pending : PendingSelfUpdate → Setting

pub same_key : Key → Key → Bool
same_key (update_channel a) (update_channel b) = a == b
same_key (pin a) (pin b) = a == b
same_key (last_manifest_released_at a) (last_manifest_released_at b) = a == b
same_key (boot_attempts a) (boot_attempts b) = a == b
same_key (pending_self_update a) (pending_self_update b) = a == b
same_key update_lock update_lock = true
same_key scheduled_update_window scheduled_update_window = true
same_key _ _ = false

abbrev pub Settings : Type 0
Settings = List (Key × Setting)

-- Get: `none` is ErrSettingNotFound.
unfoldable pub get : Key → Settings → Option Setting
unfolding same_key
get k [] = none
get k ((j, v) ∷ s) = if same_key j k then some v else get k s

pub delete : Key → Settings → Settings
unfolding same_key
delete k [] = []
delete k ((j, v) ∷ s) = let rest = delete k s in if same_key j k then rest else (j, v) ∷ rest

-- Set: the row is inserted or replaced.
unfoldable pub set : Key → Setting → Settings → Settings
unfolding delete
set k v s = (k, v) ∷ delete k s

-- What agent/storage/settings.go returns for the text of a row: GetJSON on a row that was not
-- written by SetJSON fails to decode.
abbrev pub as_text : String → Option Setting → Result String
as_text fallback none = ok fallback
as_text fallback (some (text v)) = ok v
as_text fallback (some _) = err bad_json

abbrev pub valid_channels : List String
valid_channels = "stable" ∷ "beta" ∷ "nightly" ∷ "development" ∷ "manual" ∷ []

pub is_valid_channel : List String → String → Bool
is_valid_channel [] c = false
is_valid_channel (v ∷ vs) c = c == v || is_valid_channel vs c

pub channel_or_default : String → String → Settings → Result String
unfolding get
channel_or_default component fallback s = as_text fallback (get (update_channel component) s)

unfoldable pub channel : String → Settings → Result String
unfolding channel_or_default
channel component s = channel_or_default component "stable" s

pub set_channel : String → String → Settings → Result Settings
unfolding set
set_channel component c s =
    if is_valid_channel valid_channels c
    then ok (set (update_channel component) (text c) s)
    else err (invalid_channel c)

abbrev pub as_option : Option Setting → Result (Option String)
as_option none = ok none
as_option (some (text v)) = ok (some v)
as_option (some _) = err bad_json

unfoldable pub pinned : String → Settings → Result (Option String)
unfolding get
pinned component s = as_option (get (pin component) s)

pub set_pin : String → String → Settings → Settings
unfolding set
set_pin component v s = set (pin component) (text v) s

pub clear_pin : String → Settings → Settings
unfolding delete
clear_pin component s = delete (pin component) s

unfoldable pub last_released_at : String → Settings → Result String
unfolding get
last_released_at c s = as_text "" (get (last_manifest_released_at c) s)

unfoldable pub record_manifest_seen : String → String → Settings → Settings
unfolding set
record_manifest_seen c at s = set (last_manifest_released_at c) (text at) s

abbrev pub as_lock : Option Setting → Result Bool
as_lock none = ok false
as_lock (some (text v)) = ok (v == "true")
as_lock (some _) = err bad_json

unfoldable pub locked : Settings → Result Bool
unfolding get
locked s = as_lock (get update_lock s)

pub set_locked : Bool → Settings → Settings
unfolding set
set_locked b s = set update_lock (text (if b then "true" else "false")) s

abbrev pub as_window : Option Setting → Result (Option ScheduledWindow)
as_window none = ok none
as_window (some (window w)) = ok (some w)
as_window (some _) = err bad_json

pub scheduled_window : Settings → Result (Option ScheduledWindow)
unfolding get
scheduled_window s = as_window (get scheduled_update_window s)

pub set_window : ScheduledWindow → Settings → Settings
unfolding set
set_window w s = set scheduled_update_window (window w) s

pub clear_window : Settings → Settings
unfolding delete
clear_window s = delete scheduled_update_window s

-- InWindow, at a weekday, an hour and a minute.
pub in_window : ScheduledWindow → ℕ → ℕ → ℕ → Bool
in_window w day hour minute =
    let minutes = hour * 60 + minute in
    let from = w.start_hour * 60 + w.start_minute in
    let to = w.end_hour * 60 + w.end_minute in
    if not (eqb day w.weekday)
    then false
    else if leb from to
    then leb from minutes && ltb minutes to
    else leb from minutes || ltb minutes to
