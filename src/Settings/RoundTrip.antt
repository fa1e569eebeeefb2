-- ===== src/Settings/RoundTrip.antt =====
-- Saved settings are loaded again as they were.
use air_play_windows.Base.{
  All, Bytes, codes, equal, is_empty, lacks, lacks-append, split_char-append, split_on,
  split_on-append, read_lines, ◌≡◌, refl, sym, ap, ◌∙◌, ◌⊎◌, inl, inr, true, false, some, List, [],
  ◌∷◌, ◌++◌, append_assoc, arith,
}
use air_play_windows.Base.Int.{ℤ, pos, negsuc, ◌≤ℤ◌}
use air_play_windows.Settings.{
  PersistentSettings, default_settings, stoi, ranged, named, apply_ui, apply_entry, is_comment,
  apply_line, apply_lines, load_settings, int_text, entries, print_all, settings_text,
}
use air_play_windows.Settings.Numbers.{
  IsSmall, stoi-int_text, ranged-int_text, flagged-bool_text, int_text-lacks, bool_text-lacks,
}
use air_play_windows.ReceiverName.{normalize_receiver_name}

-- A number that loading takes, or the default, which loading leaves.
abbrev pub InRange : ℤ → ℤ → ℤ → ℤ → Type 0
InRange lo hi default n = (n ≡ default) ⊎ ((lo ≤ℤ n) × (n ≤ℤ hi))

-- What the program's own controls keep: numbers in range, a normalised name, no line break in the
-- directory.
pub record IsValid (s : PersistentSettings) : Type 0 where
  pub name : normalize_receiver_name s.receiver_name ≡ s.receiver_name
  pub name_there : is_empty s.receiver_name ≡ false
  pub name_line : lacks 10 s.receiver_name ≡ true
  pub directory_line : lacks 10 s.ui.recording_directory ≡ true
  pub width : InRange (pos 320) (pos 7680) (pos 0) s.mirror_width
  pub height : InRange (pos 240) (pos 4320) (pos 0) s.mirror_height
  pub fps : InRange (pos 1) (pos 60) (pos 60) s.max_fps
  pub rate : InRange (pos 1) (pos 60) (pos 60) s.refresh_rate
  pub rotation : InRange (negsuc 0) (pos 3) (negsuc 0) s.video_rotation
  pub x : InRange (negsuc 99999) (pos 100000) (pos 0) s.ui.window_x
  pub y : InRange (negsuc 99999) (pos 100000) (pos 0) s.ui.window_y
  pub window_w : InRange (pos 160) (pos 32768) (pos 1220) s.ui.window_width
  pub window_h : InRange (pos 160) (pos 32768) (pos 800) s.ui.window_height
  pub codec : InRange (pos 0) (pos 1) (pos 0) s.ui.recording_codec
  pub encoder : InRange (pos 0) (pos 2) (pos 0) s.ui.recording_encoder
  pub bitrate : InRange (pos 2) (pos 40) (pos 8) s.ui.recording_bitrate

-- A key as the file needs it.
abbrev IsKey : Bytes → Type 0
IsKey key = (is_comment key ≡ false) × (lacks 10 key ≡ true) × (lacks b'=' key ≡ true)

abbrev IsEntry : Bytes × Bytes → Type 0
IsEntry e = IsKey e.0 × (lacks 10 e.1 ≡ true)

apply_all : List (Bytes × Bytes) → PersistentSettings → PersistentSettings
apply_all [] s = s
apply_all ((key, val) ∷ es) s = apply_all es (apply_entry key val s)

apply_line-entry :
    (key val : Bytes) (s : PersistentSettings)
    → IsKey key
    → apply_line (key ++ (b'=' ∷ val)) s ≡ apply_entry key val s
unfolding apply_line
apply_line-entry [] val s (there, line, plain) = absurd (cc there)
apply_line-entry (c ∷ cs) val s (there, line, plain) =
    ground (arith, there, split_char-append b'=' (c ∷ cs) val plain)

apply_lines-print_all :
    (es : List (Bytes × Bytes)) (s : PersistentSettings)
    → All IsEntry es
    → apply_lines (read_lines (print_all es)) s ≡ apply_all es s
unfolding print_all apply_lines split_on apply_all
apply_lines-print_all [] s h = refl
apply_lines-print_all ((key, val) ∷ es) s (((there, line, plain), val_line), h) =
    let whole : lacks 10 (key ++ (b'=' ∷ val)) ≡ true =
      lacks-append 10 key (b'=' ∷ val) line (unfold lacks in ground (arith, val_line)) in
    let lines : read_lines (print_all ((key, val) ∷ es))
        ≡ (key ++ (b'=' ∷ val)) ∷ read_lines (print_all es) =
      ap read_lines (sym (append_assoc key (b'=' ∷ val) (10 ∷ print_all es)))
      ∙ split_on-append 10 (key ++ (b'=' ∷ val)) (print_all es) whole in
    ap (λ l. apply_lines l s) lines
    ∙ ap (apply_lines (read_lines (print_all es))) (apply_line-entry key val s (there, line, plain))
    ∙ apply_lines-print_all es (apply_entry key val s) h

named_kept : (name old : Bytes) → is_empty name ≡ false → named name old ≡ name
named_kept [] old h = absurd (cc h)
named_kept (c ∷ cs) old h = refl

-- A number that is in range or the default is read into the default as itself.
loaded :
    (lo hi default n : ℤ)
    → (negsuc 99999 ≤ℤ lo) × (hi ≤ℤ pos 100000)
    → IsSmall default
    → InRange lo hi default n
    → ranged lo hi (stoi (int_text n)) default ≡ n
unfolding ranged
loaded lo hi default n bounds small (inl same) =
    ap (λ x. ranged lo hi x default)
      (ap (λ x. stoi (int_text x)) same ∙ stoi-int_text default small)
    ∙ ground (arith, same)
loaded lo hi default n bounds small (inr (low, high)) =
    ranged-int_text lo hi n default (omega arith, omega arith) (low, high)

entries-IsEntry : (s : PersistentSettings) → IsValid s → All IsEntry (entries s)
unfolding lacks
entries-IsEntry s h = (
  ((refl, refl, refl), h.name_line),
  (
    ((refl, refl, refl), int_text-lacks s.mirror_width),
    (
      ((refl, refl, refl), int_text-lacks s.mirror_height),
      (
        ((refl, refl, refl), bool_text-lacks s.hevc_enabled),
        (
          ((refl, refl, refl), int_text-lacks s.max_fps),
          (
            ((refl, refl, refl), int_text-lacks s.refresh_rate),
            (
              ((refl, refl, refl), bool_text-lacks s.mirror_hwaccel),
              (
                ((refl, refl, refl), bool_text-lacks s.vsync_enabled),
                (
                  ((refl, refl, refl), bool_text-lacks s.fullscreen),
                  (
                    ((refl, refl, refl), bool_text-lacks s.chromeless),
                    (
                      ((refl, refl, refl), int_text-lacks s.video_rotation),
                      (
                        ((refl, refl, refl), bool_text-lacks s.ui.diagnostics),
                        (
                          ((refl, refl, refl), bool_text-lacks s.ui.window_placement_valid),
                          (
                            ((refl, refl, refl), int_text-lacks s.ui.window_x),
                            (
                              ((refl, refl, refl), int_text-lacks s.ui.window_y),
                              (
                                ((refl, refl, refl), int_text-lacks s.ui.window_width),
                                (
                                  ((refl, refl, refl), int_text-lacks s.ui.window_height),
                                  (
                                    ((refl, refl, refl), bool_text-lacks s.ui.window_maximized),
                                    (
                                      ((refl, refl, refl), h.directory_line),
                                      (
                                        ((refl, refl, refl), int_text-lacks s.ui.recording_codec),
                                        (
                                          (
                                            (refl, refl, refl),
                                            int_text-lacks s.ui.recording_encoder,
                                          ),
                                          (
                                            (
                                              (refl, refl, refl),
                                              int_text-lacks s.ui.recording_bitrate,
                                            ),
                                            tt,
                                          ),
                                        ),
                                      ),
                                    ),
                                  ),
                                ),
                              ),
                            ),
                          ),
                        ),
                      ),
                    ),
                  ),
                ),
              ),
            ),
          ),
        ),
      ),
    ),
  ),
)

loaded_name :
    (s : PersistentSettings) (old : Bytes)
    → IsValid s
    → named (normalize_receiver_name s.receiver_name) old ≡ s.receiver_name
loaded_name s old h = ap (λ n. named n old) h.name ∙ named_kept s.receiver_name old h.name_there

apply_all-entries :
    (s : PersistentSettings) → IsValid s → apply_all (entries s) default_settings ≡ s
unfolding apply_all apply_entry apply_ui equal
apply_all-entries s h =
    rw
      (
        loaded_name s (codes "AirPlay-Windows") h,
        flagged-bool_text s.hevc_enabled true,
        flagged-bool_text s.mirror_hwaccel true,
        flagged-bool_text s.vsync_enabled true,
        flagged-bool_text s.fullscreen false,
        flagged-bool_text s.chromeless false,
        flagged-bool_text s.ui.diagnostics false,
        flagged-bool_text s.ui.window_placement_valid false,
        flagged-bool_text s.ui.window_maximized false,
        loaded (pos 320) (pos 7680) (pos 0) s.mirror_width (omega arith, omega arith)
            (omega arith, omega arith) h.width,
        loaded (pos 240) (pos 4320) (pos 0) s.mirror_height (omega arith, omega arith)
            (omega arith, omega arith) h.height,
        loaded (pos 1) (pos 60) (pos 60) s.max_fps (omega arith, omega arith)
            (omega arith, omega arith) h.fps,
        loaded (pos 1) (pos 60) (pos 60) s.refresh_rate (omega arith, omega arith)
            (omega arith, omega arith) h.rate,
        loaded (negsuc 0) (pos 3) (negsuc 0) s.video_rotation (omega arith, omega arith)
            (omega arith, omega arith) h.rotation,
        loaded (negsuc 99999) (pos 100000) (pos 0) s.ui.window_x (omega arith, omega arith)
            (omega arith, omega arith) h.x,
        loaded (negsuc 99999) (pos 100000) (pos 0) s.ui.window_y (omega arith, omega arith)
            (omega arith, omega arith) h.y,
        loaded (pos 160) (pos 32768) (pos 1220) s.ui.window_width (omega arith, omega arith)
            (omega arith, omega arith) h.window_w,
        loaded (pos 160) (pos 32768) (pos 800) s.ui.window_height (omega arith, omega arith)
            (omega arith, omega arith) h.window_h,
        loaded (pos 0) (pos 1) (pos 0) s.ui.recording_codec (omega arith, omega arith)
            (omega arith, omega arith) h.codec,
        loaded (pos 0) (pos 2) (pos 0) s.ui.recording_encoder (omega arith, omega arith)
            (omega arith, omega arith) h.encoder,
        loaded (pos 2) (pos 40) (pos 8) s.ui.recording_bitrate (omega arith, omega arith)
            (omega arith, omega arith) h.bitrate,
      )
      refl

-- Settings whose numbers are in the ranges that loading accepts or at their defaults, whose receiver
-- name is a normalised name that is not empty, and whose name and directory have no line break, are
-- loaded from the text that saving them writes.
pub load_settings-settings_text :
    (s : PersistentSettings) → IsValid s → load_settings (some (settings_text s)) ≡ s
unfolding load_settings settings_text
load_settings-settings_text s h =
    apply_lines-print_all (entries s) default_settings (entries-IsEntry s h) ∙ apply_all-entries s h
