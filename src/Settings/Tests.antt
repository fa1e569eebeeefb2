-- ===== src/Settings/Tests.antt =====
-- Settings away from the defaults.
use air_play_windows.Base.{codes, lacks, ◌≡◌, refl, inl, inr, true, some, arith}
use air_play_windows.Base.Int.{pos, negsuc}
use air_play_windows.Settings.{PersistentSettings, default_settings, load_settings, settings_text}
use air_play_windows.Settings.RoundTrip.{IsValid, load_settings-settings_text}
use air_play_windows.ReceiverName.{strip_front, strip_back, is_valid, normalize_receiver_name}

abbrev chosen : PersistentSettings
chosen = record default_settings {
  receiver_name = codes "Den";
  mirror_width = pos 1920;
  fullscreen = true;
  video_rotation = pos 2;
  ui = record (default_settings.ui) { window_x = negsuc 7; recording_directory = codes "C:/a=b" };
}

chosen-IsValid : IsValid chosen
unfolding normalize_receiver_name strip_front strip_back is_valid lacks
chosen-IsValid = record {
  name = refl;
  name_there = refl;
  name_line = refl;
  directory_line = refl;
  width = inr (omega arith, omega arith);
  height = inl refl;
  fps = inl refl;
  rate = inl refl;
  rotation = inr (omega arith, omega arith);
  x = inr (omega arith, omega arith);
  y = inl refl;
  window_w = inl refl;
  window_h = inl refl;
  codec = inl refl;
  encoder = inl refl;
  bitrate = inl refl;
}

load_settings-settings_text_example : load_settings (some (settings_text chosen)) ≡ chosen
load_settings-settings_text_example = load_settings-settings_text chosen chosen-IsValid
