-- ===== src/Settings.antt =====
-- src/settings.cpp and settings.h: the settings file. `load_settings` takes the file's text, nothing
-- where there is no path or the file does not open; `settings_text` is what `save_settings` writes.
-- The reader and the writer both open the file in text mode, so a line ends in '\n' here.
pub mod Numbers
pub mod RoundTrip
mod Tests
use air_play_windows.Base.{
  ltb, ◌==◌, if◌then◌else◌, Bytes, codes, equal, split_char, skip_space, read_lines, is_digit,
  digits_value, decimal, zero, suc, ◌+◌, ◌^◌, Bool, true, false, not, ◌&&◌, Option, none, some,
  List, [], ◌∷◌, ◌++◌,
}
use air_play_windows.Base.Int.{ℤ, pos, negsuc, ◌-ℤ◌, leb_ℤ}
use air_play_windows.ReceiverName.{normalize_receiver_name}

pub record UiPreferences : Type 0 where
  pub diagnostics : Bool
  pub window_placement_valid : Bool
  pub window_x : ℤ
  pub window_y : ℤ
  pub window_width : ℤ
  pub window_height : ℤ
  pub window_maximized : Bool
  pub recording_directory : Bytes
  pub recording_codec : ℤ
  pub recording_encoder : ℤ
  pub recording_bitrate : ℤ

pub record PersistentSettings : Type 0 where
  pub receiver_name : Bytes
  pub mirror_width : ℤ
  pub mirror_height : ℤ
  pub hevc_enabled : Bool
  pub max_fps : ℤ
  pub refresh_rate : ℤ
  pub mirror_hwaccel : Bool
  pub vsync_enabled : Bool
  pub fullscreen : Bool
  pub chromeless : Bool
  pub video_rotation : ℤ
  pub ui : UiPreferences

abbrev pub default_settings : PersistentSettings
default_settings = record {
  receiver_name = codes "AirPlay-Windows";
  mirror_width = pos 0;
  mirror_height = pos 0;
  hevc_enabled = true;
  max_fps = pos 60;
  refresh_rate = pos 60;
  mirror_hwaccel = true;
  vsync_enabled = true;
  fullscreen = false;
  chromeless = false;
  video_rotation = negsuc 0;
  ui = record {
    diagnostics = false;
    window_placement_valid = false;
    window_x = pos 0;
    window_y = pos 0;
    window_width = pos 1220;
    window_height = pos 800;
    window_maximized = false;
    recording_directory = [];
    recording_codec = pos 0;
    recording_encoder = pos 0;
    recording_bitrate = pos 8;
  };
}

abbrev pub digits_int : Bool → Bytes → Option ℤ
digits_int minus [] = none
digits_int minus (c ∷ cs) =
    let n = digits_value 0 (c ∷ cs) in
    let value = if minus then pos 0 -ℤ pos n else pos n in
    if is_digit c && ltb n (if minus then 2 ^ 31 + 1 else 2 ^ 31) then some value else none

abbrev pub signed_int : Bytes → Option ℤ
signed_int [] = none
signed_int (c ∷ cs) =
    if c == b'-'
    then digits_int true cs
    else if c == b'+'
    then digits_int false cs
    else digits_int false (c ∷ cs)

-- `std::stoi` for a 32-bit `int`, nothing where it throws.
unfoldable pub stoi : Bytes → Option ℤ
stoi s = signed_int (skip_space s)

-- A value that is read, if it is a number from `lo` to `hi`.
unfoldable pub ranged : ℤ → ℤ → Option ℤ → ℤ → ℤ
ranged lo hi none old = old
ranged lo hi (some n) old = if leb_ℤ lo n && leb_ℤ n hi then n else old

abbrev is_zero : ℤ → Bool
is_zero (pos zero) = true
is_zero n = false

-- `std::stoi(val) != 0`.
unfoldable pub flagged : Option ℤ → Bool → Bool
flagged none old = old
flagged (some n) old = not (is_zero n)

abbrev pub named : Bytes → Bytes → Bytes
named [] old = old
named (c ∷ cs) old = c ∷ cs

-- The keys of the window and of recording.
unfoldable pub apply_ui : Bytes → Bytes → UiPreferences → UiPreferences
apply_ui key val s =
    let n = stoi val in
    if equal key (codes "diagnostics")
    then record s { diagnostics = flagged n s.diagnostics }
    else if equal key (codes "window_placement_valid")
    then record s { window_placement_valid = flagged n s.window_placement_valid }
    else if equal key (codes "window_maximized")
    then record s { window_maximized = flagged n s.window_maximized }
    else if equal key (codes "window_x")
    then record s { window_x = ranged (negsuc 99999) (pos 100000) n s.window_x }
    else if equal key (codes "window_y")
    then record s { window_y = ranged (negsuc 99999) (pos 100000) n s.window_y }
    else if equal key (codes "window_width")
    then record s { window_width = ranged (pos 160) (pos 32768) n s.window_width }
    else if equal key (codes "window_height")
    then record s { window_height = ranged (pos 160) (pos 32768) n s.window_height }
    else if equal key (codes "recording_directory")
    then record s { recording_directory = val }
    else if equal key (codes "recording_codec")
    then record s { recording_codec = ranged (pos 0) (pos 1) n s.recording_codec }
    else if equal key (codes "recording_encoder")
    then record s { recording_encoder = ranged (pos 0) (pos 2) n s.recording_encoder }
    else if equal key (codes "recording_bitrate")
    then record s { recording_bitrate = ranged (pos 2) (pos 40) n s.recording_bitrate }
    else s

-- The chain of tests in the loop of `load_settings`. A value that `std::stoi` refuses leaves the
-- setting, since the exception is caught.
unfoldable pub apply_entry : Bytes → Bytes → PersistentSettings → PersistentSettings
apply_entry key val s =
    let n = stoi val in
    if equal key (codes "receiver_name")
    then record s { receiver_name = named (normalize_receiver_name val) s.receiver_name }
    else if equal key (codes "mirror_width")
    then record s { mirror_width = ranged (pos 320) (pos 7680) n s.mirror_width }
    else if equal key (codes "mirror_height")
    then record s { mirror_height = ranged (pos 240) (pos 4320) n s.mirror_height }
    else if equal key (codes "hevc_enabled")
    then record s { hevc_enabled = flagged n s.hevc_enabled }
    else if equal key (codes "max_fps")
    then record s { max_fps = ranged (pos 1) (pos 60) n s.max_fps }
    else if equal key (codes "refresh_rate")
    then record s { refresh_rate = ranged (pos 1) (pos 60) n s.refresh_rate }
    else if equal key (codes "mirror_hwaccel")
    then record s { mirror_hwaccel = flagged n s.mirror_hwaccel }
    else if equal key (codes "vsync_enabled")
    then record s { vsync_enabled = flagged n s.vsync_enabled }
    else if equal key (codes "fullscreen")
    then record s { fullscreen = flagged n s.fullscreen }
    else if equal key (codes "chromeless")
    then record s { chromeless = flagged n s.chromeless }
    else if equal key (codes "video_rotation")
    then record s { video_rotation = ranged (negsuc 0) (pos 3) n s.video_rotation }
    else record s { ui = apply_ui key val s.ui }

abbrev pub is_comment : Bytes → Bool
is_comment [] = true
is_comment (c ∷ cs) = c == b'#'

-- The loop's body on one line; a blank line, a comment and a line without '=' are passed over.
unfoldable pub apply_line : Bytes → PersistentSettings → PersistentSettings
apply_line line s =
    if is_comment line
    then s
    else elim (split_char b'=' line) [ none ↦ s | some (key, val) ↦ apply_entry key val s ]

unfoldable pub apply_lines : List Bytes → PersistentSettings → PersistentSettings
apply_lines [] s = s
apply_lines (l ∷ ls) s = apply_lines ls (apply_line l s)

unfoldable pub load_settings : Option Bytes → PersistentSettings
load_settings none = default_settings
load_settings (some text) = apply_lines (read_lines text) default_settings

-- `<<` on an `int` and on a `bool`.
unfoldable pub int_text : ℤ → Bytes
int_text (pos n) = decimal n
int_text (negsuc n) = b'-' ∷ decimal (suc n)

unfoldable pub bool_text : Bool → Bytes
bool_text b = decimal (if b then 1 else 0)

abbrev pub entries : PersistentSettings → List (Bytes × Bytes)
entries s =
    (codes "receiver_name", s.receiver_name)
    ∷ (codes "mirror_width", int_text s.mirror_width)
    ∷ (codes "mirror_height", int_text s.mirror_height)
    ∷ (codes "hevc_enabled", bool_text s.hevc_enabled)
    ∷ (codes "max_fps", int_text s.max_fps)
    ∷ (codes "refresh_rate", int_text s.refresh_rate)
    ∷ (codes "mirror_hwaccel", bool_text s.mirror_hwaccel)
    ∷ (codes "vsync_enabled", bool_text s.vsync_enabled)
    ∷ (codes "fullscreen", bool_text s.fullscreen)
    ∷ (codes "chromeless", bool_text s.chromeless)
    ∷ (codes "video_rotation", int_text s.video_rotation)
    ∷ (codes "diagnostics", bool_text s.ui.diagnostics)
    ∷ (codes "window_placement_valid", bool_text s.ui.window_placement_valid)
    ∷ (codes "window_x", int_text s.ui.window_x)
    ∷ (codes "window_y", int_text s.ui.window_y)
    ∷ (codes "window_width", int_text s.ui.window_width)
    ∷ (codes "window_height", int_text s.ui.window_height)
    ∷ (codes "window_maximized", bool_text s.ui.window_maximized)
    ∷ (codes "recording_directory", s.ui.recording_directory)
    ∷ (codes "recording_codec", int_text s.ui.recording_codec)
    ∷ (codes "recording_encoder", int_text s.ui.recording_encoder)
    ∷ (codes "recording_bitrate", int_text s.ui.recording_bitrate)
    ∷ []

unfoldable pub print_all : List (Bytes × Bytes) → Bytes
print_all [] = []
print_all ((key, val) ∷ es) = key ++ (b'=' ∷ (val ++ (10 ∷ print_all es)))

unfoldable pub settings_text : PersistentSettings → Bytes
settings_text s = print_all (entries s)
