-- ===== src/Config.antt =====
-- `load_config` of capture/src/main.c: the configuration of the capture module.
pub mod File
pub mod Known
mod Tests
use tlshub_ebpf.Base.{
  ℕ, Bool, true, false, ◌||◌, Option, none, some, List, [], ◌∷◌, Bytes, ◌==◌, leb, if◌then◌else◌,
  length, fill, overwrite, codes, str_eq,
}
use tlshub_ebpf.Capture.{Mode, tlshub, openssl, boringssl}
use tlshub_ebpf.Stdio.{lines, c_string, Scanned, nothing, one, two, scan_assignment}

-- `struct capture_config`; the path is the buffer of 256 bytes.
pub record CaptureConfig : Type 0 where
  pub mode : Mode
  pub pod_node_config_path : Bytes

-- `DEFAULT_POD_NODE_CONFIG`
abbrev pub default_pod_node_config : Bytes
default_pod_node_config = codes "/etc/tlshub/pod_node_mapping.conf"

-- `strncpy(dst, src, n)`, with zeros behind a shorter string.
unfoldable pub strncpy : Bytes → Bytes → ℕ → Bytes
strncpy dst src n = overwrite (fill n src) dst

-- How the reading ends. `sscanf` stores words of any length: a key of 128 bytes or a value of 256
-- overruns its buffer, and from there on the program's behaviour is undefined.
pub data Loaded : Type 0 where
  overrun : Loaded
  configured : CaptureConfig → Loaded

-- The `strcmp` chain on the value of `mode`; any other value changes nothing.
unfoldable pub set_mode : Bytes → CaptureConfig → CaptureConfig
set_mode value c =
    if str_eq value (codes "tlshub")
    then record c { mode = tlshub }
    else if str_eq value (codes "openssl")
    then record c { mode = openssl }
    else if str_eq value (codes "boringssl")
    then record c { mode = boringssl }
    else c

-- The `strcmp` chain on the key.
unfoldable pub assign : Bytes → Bytes → CaptureConfig → CaptureConfig
unfolding set_mode
assign key value c =
    if str_eq key (codes "mode")
    then set_mode value c
    else if str_eq key (codes "pod_node_config")
    then record c { pod_node_config_path = strncpy c.pod_node_config_path value 255 }
    else c

-- What one `sscanf` leads to; `none` is an overrun.
unfoldable pub scanned_setting : Scanned → CaptureConfig → Option CaptureConfig
scanned_setting nothing c = some c
scanned_setting (one w) c = if leb 128 (length w) then none else some c
scanned_setting (two w v) c =
    if leb 128 (length w) || leb 256 (length v) then none else some (assign w v c)

-- `line[0] == '#' || line[0] == '\n'`
unfoldable pub is_comment : Bytes → Bool
is_comment [] = false
is_comment (c ∷ cs) = c == b'#' || c == b'\n'

-- The body of the loop.
unfoldable pub read_setting : Bytes → CaptureConfig → Option CaptureConfig
unfolding is_comment scanned_setting
read_setting line c =
    if is_comment line then some c else scanned_setting (scan_assignment (c_string line)) c

unfoldable pub read_settings : List Bytes → CaptureConfig → Loaded
read_settings [] c = configured c
read_settings (line ∷ ls) c = elim (read_setting line c) [
  | none ↦ overrun
  | some c' ↦ read_settings ls c'
]

-- The defaults, over what the caller's structure held.
unfoldable pub with_defaults : CaptureConfig → CaptureConfig
unfolding strncpy
with_defaults c = record {
  mode = tlshub;
  pod_node_config_path = strncpy c.pod_node_config_path default_pod_node_config 255;
}

-- `load_config(config_file, config)`: the bytes of the file, if it could be opened.
unfoldable pub load_config : Option Bytes → CaptureConfig → Loaded
unfolding with_defaults
load_config none c = configured (with_defaults c)
load_config (some bytes) c = read_settings (lines bytes) (with_defaults c)
