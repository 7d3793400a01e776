-- ===== src/Config/File.antt =====
-- What `load_config` makes of a file.
use tlshub_ebpf.Base.{
  ℕ, zero, suc, ◌<◌, ◌≡◌, refl, ap, ◌∙◌, true, false, some, List, [], ◌∷◌, ◌++◌, Bytes, leb,
  if◌then◌else◌, length, length-append, fill, append_assoc, codes, str_eq, str_eq_iff, arith,
}
use tlshub_ebpf.Capture.{Mode, tlshub, openssl, boringssl}
use tlshub_ebpf.Stdio.{lines, c_string, scan_assignment, two}
use tlshub_ebpf.Stdio.Words.{
  IsWord, IsPlain, plain_test-IsPlain, IsPlain-append, IsWord-IsPlain, c_string-line, lines-cons,
  lines_nil, scan_assignment-append,
}
use tlshub_ebpf.Config.{
  CaptureConfig, default_pod_node_config, strncpy, configured, assign, scanned_setting, is_comment,
  read_setting, read_settings, with_defaults, load_config,
}

-- A line `key = value` that fits its buffers and is no comment.
pub record Setting : Type 0 where
  pub key : Bytes
  pub value : Bytes

pub record Fits (s : Setting) : Type 0 where
  pub key_word : IsWord s.key
  pub value_word : IsWord s.value
  pub key_size : length s.key < 128
  pub value_size : length s.value < 255
  pub no_comment : is_comment s.key ≡ false

abbrev pub AllFit : List Setting → Type 0
AllFit [] = Unit {0}
AllFit (s ∷ ss) = Fits s × AllFit ss

abbrev pub line_of : Setting → Bytes
line_of s = s.key ++ b' ' ∷ b'=' ∷ b' ' ∷ s.value

abbrev pub file_of : List Setting → Bytes
file_of [] = []
file_of (s ∷ ss) = line_of s ++ b'\n' ∷ file_of ss

-- The last setting of `mode` that names a mode, and the last of `pod_node_config`.
abbrev pub mode_named : Bytes → Mode → Mode
mode_named v m =
    if str_eq v (codes "tlshub")
    then tlshub
    else if str_eq v (codes "openssl")
    then openssl
    else if str_eq v (codes "boringssl")
    then boringssl
    else m

abbrev pub last_mode : List Setting → Mode → Mode
last_mode [] m = m
last_mode (s ∷ ss) m =
    last_mode ss (if str_eq s.key (codes "mode") then mode_named s.value m else m)

abbrev pub last_path : List Setting → Bytes → Bytes
last_path [] p = p
last_path (s ∷ ss) p = last_path ss (if str_eq s.key (codes "pod_node_config") then s.value else p)

c_string-strncpy :
    (n : ℕ) (v buf : Bytes) → IsPlain v → length v < n → c_string (strncpy buf v n) ≡ v
unfolding strncpy c_string
c_string-strncpy zero v buf p h = absurd (omega arith)
c_string-strncpy (suc n) [] [] p h = refl
c_string-strncpy (suc n) [] (b ∷ buf) p h = refl
c_string-strncpy (suc n) (x ∷ v) [] p h =
    rw p.0.1 (ap (◌∷◌ x) (c_string-fill n v p.1 (omega arith)))
  where
    c_string-fill : (n : ℕ) (v : Bytes) → IsPlain v → length v < n → c_string (fill n v) ≡ v
    c_string-fill zero v p h = absurd (omega arith)
    c_string-fill (suc n) [] p h = refl
    c_string-fill (suc n) (x ∷ v) p h = rw p.0.1 (ap (◌∷◌ x) (c_string-fill n v p.1 (omega arith)))
c_string-strncpy (suc n) (x ∷ v) (b ∷ buf) p h =
    rw p.0.1 (ap (◌∷◌ x) (c_string-strncpy n v buf p.1 (omega arith)))

line_of-IsPlain : (s : Setting) → Fits s → IsPlain (line_of s)
line_of-IsPlain s f =
    IsPlain-append s.key (b' ' ∷ b'=' ∷ b' ' ∷ s.value) (IsWord-IsPlain s.key f.key_word)
      ((refl, refl), ((refl, refl), ((refl, refl), IsWord-IsPlain s.value f.value_word)))

is_comment-append : (w rest : Bytes) → IsWord w → is_comment (w ++ rest) ≡ is_comment w
unfolding is_comment
is_comment-append [] rest h = absurd h
is_comment-append (c ∷ cs) rest h = refl

not_leb : (n k : ℕ) → k < n → leb n k ≡ false
not_leb n k h = ground arith

read_setting-line :
    (s : Setting) (c : CaptureConfig)
    → Fits s
    → read_setting (line_of s ++ b'\n' ∷ []) c ≡ some (assign s.key s.value c)
unfolding read_setting
read_setting-line s c f =
    let text = s.key ++ b' ' ∷ b'=' ∷ b' ' ∷ (s.value ++ b'\n' ∷ []) in
    let whole : c_string text ≡ text =
      rw (append_assoc s.key (b' ' ∷ b'=' ∷ b' ' ∷ s.value) (b'\n' ∷ [])) at
        (c_string-line (line_of s) (line_of-IsPlain s f)) in
    let scanned : scan_assignment (c_string text) ≡ two s.key s.value =
      ap scan_assignment whole ∙ scan_assignment-append s.key s.value f.key_word f.value_word in
    let key_fits : leb 128 (length s.key) ≡ false = not_leb 128 _ f.key_size in
    let value_fits : leb 256 (length s.value) ≡ false =
      not_leb 256 _ (omega (arith, f.value_size)) in
    rw (
      append_assoc s.key (b' ' ∷ b'=' ∷ b' ' ∷ s.value) (b'\n' ∷ []),
      is_comment-append s.key (b' ' ∷ b'=' ∷ b' ' ∷ s.value ++ b'\n' ∷ []) f.key_word,
      f.no_comment,
      scanned,
      scanned_setting,
      key_fits,
      value_fits,
    )

-- What the settings make of a configuration.
abbrev Holds : List Setting → CaptureConfig → CaptureConfig → Type 0
Holds ss c d =
    (d.mode ≡ last_mode ss c.mode)
    × (c_string d.pod_node_config_path ≡ last_path ss (c_string c.pod_node_config_path))

assign-mode :
    (s : Setting) (c : CaptureConfig)
    → (assign s.key s.value c).mode
      ≡ (if str_eq s.key (codes "mode") then mode_named s.value c.mode else c.mode)
unfolding assign
assign-mode s c = ground arith

mode-ne-path :
    (k : Bytes) → str_eq k (codes "mode") ≡ true → str_eq k (codes "pod_node_config") ≡ false
unfolding str_eq
mode-ne-path k e = rw ((str_eq_iff k (codes "mode")).0 e) refl

assign-path :
    (s : Setting) (c : CaptureConfig)
    → Fits s
    → c_string (assign s.key s.value c).pod_node_config_path ≡ (
        if str_eq s.key (codes "pod_node_config") then s.value else c_string c.pod_node_config_path)
unfolding assign
assign-path s c f = ground (
  arith,
  mode-ne-path s.key,
  c_string-strncpy 255 s.value c.pod_node_config_path (IsWord-IsPlain s.value f.value_word)
      f.value_size,
)

read_settings-file_of :
    (ss : List Setting) (c : CaptureConfig)
    → AllFit ss
    → (d : CaptureConfig) × (read_settings (lines (file_of ss)) c ≡ configured d) × Holds ss c d
unfolding read_settings
read_settings-file_of [] c fit = (c, rw lines_nil, (refl, refl))
read_settings-file_of (s ∷ ss) c fit =
    let (d, reads, held) = read_settings-file_of ss (assign s.key s.value c) fit.1 in
    let line = lines-cons (line_of s) (file_of ss) (line_of-IsPlain s fit.0) (
      omega (
        arith,
        length-append s.key (b' ' ∷ b'=' ∷ b' ' ∷ s.value),
        fit.0.key_size,
        fit.0.value_size,
      )) in
    (
      d,
      rw (line, read_settings, read_setting-line s c fit.0) reads,
      (
        held.0 ∙ ap (last_mode ss) (assign-mode s c),
        held.1 ∙ ap (last_path ss) (assign-path s c fit.0),
      ),
    )

-- A file of settings, one `key = value` to a line, each key a word without blanks below 128 bytes that does not
-- begin a comment and each value a word without blanks below 255 bytes, is read as it says: the mode is the
-- last one named (TLSHub if none is), and the path is the last one given (the default path if none is).
pub load_config-file_of :
    (ss : List Setting) (c : CaptureConfig)
    → AllFit ss
    → (d : CaptureConfig) × (load_config (some (file_of ss)) c ≡ configured d)
      × (d.mode ≡ last_mode ss tlshub)
      × (c_string d.pod_node_config_path ≡ last_path ss default_pod_node_config)
unfolding load_config
load_config-file_of ss c fit =
    let (d, reads, held) = read_settings-file_of ss (with_defaults c) fit in
    (d, reads, held.0, held.1 ∙ ap (last_path ss) (default_path c))
  where
    default_path :
        (c : CaptureConfig)
        → c_string (with_defaults c).pod_node_config_path ≡ default_pod_node_config
    default_path c =
        c_string-strncpy 255 default_pod_node_config c.pod_node_config_path
          (plain_test-IsPlain default_pod_node_config refl) (omega arith)
