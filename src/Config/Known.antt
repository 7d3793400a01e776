-- ===== src/Config/Known.antt =====
-- The modes that `load_config` of capture/src/main.c can store.
use tlshub_ebpf.Base.{
  ◌≡◌, subst, inl, inr, Bool-cases, Option, none, some, Option-cases, List, [], ◌∷◌, Bytes, arith,
}
use mathlib.Core.Option.{some-injective}
use tlshub_ebpf.Capture.{Mode, tlshub, openssl, boringssl, unknown}
use tlshub_ebpf.Stdio.{lines, c_string, scan_assignment, two, Scanned, nothing, one}
use tlshub_ebpf.Config.{
  CaptureConfig, Loaded, overrun, configured, assign, scanned_setting, is_comment, read_setting,
  read_settings, with_defaults, load_config,
}

-- One of the three modes that the module knows.
abbrev pub IsKnown : Mode → Type 0
IsKnown tlshub = Unit
IsKnown openssl = Unit
IsKnown boringssl = Unit
IsKnown (unknown n) = ⊥

abbrev pub HasKnown : Loaded → Type 0
HasKnown overrun = Unit
HasKnown (configured c) = IsKnown c.mode

assign-IsKnown : (k v : Bytes) (c : CaptureConfig) → IsKnown c.mode → IsKnown (assign k v c).mode
unfolding assign
assign-IsKnown k v c h = ground arith

scanned_setting-IsKnown :
    (s : Scanned) (c d : CaptureConfig)
    → IsKnown c.mode
    → scanned_setting s c ≡ some d
    → IsKnown d.mode
unfolding scanned_setting
scanned_setting-IsKnown nothing c d h e = subst (λ x. IsKnown x.mode) (some-injective _ _ e) h
scanned_setting-IsKnown (one w) c d h e =
    let is : c ≡ d = ground (arith, e) in subst (λ x. IsKnown x.mode) is h
scanned_setting-IsKnown (two w v) c d h e =
    let is : assign w v c ≡ d = ground (arith, e) in
    subst (λ x. IsKnown x.mode) is (assign-IsKnown w v c h)

read_setting-IsKnown :
    (line : Bytes) (c d : CaptureConfig)
    → IsKnown c.mode
    → read_setting line c ≡ some d
    → IsKnown d.mode
unfolding read_setting
read_setting-IsKnown line c d h e = elim (Bool-cases (is_comment line)) [
  | inl y ↦ subst (λ x. IsKnown x.mode) (some-injective _ _ (rw y at e)) h
  | inr n ↦ scanned_setting-IsKnown (scan_assignment (c_string line)) c d h (rw n at e)
]

read_settings-HasKnown :
    (ls : List Bytes) (c : CaptureConfig) → IsKnown c.mode → HasKnown (read_settings ls c)
unfolding read_settings
read_settings-HasKnown [] c h = h
read_settings-HasKnown (line ∷ ls) c h = elim (Option-cases (read_setting line c)) [
  | inl e ↦ rw (read_settings, e) tt
  | inr (d, e) ↦
      rw (read_settings, e) (read_settings-HasKnown ls d (read_setting-IsKnown line c d h e))
]

-- Whatever the file and the caller's structure hold, the mode of a loaded configuration is one of the
-- three known ones.
pub load_config-HasKnown : (file : Option Bytes) (c : CaptureConfig) → HasKnown (load_config file c)
unfolding load_config
load_config-HasKnown none c = tt
load_config-HasKnown (some bytes) c = read_settings-HasKnown (lines bytes) (with_defaults c) tt
