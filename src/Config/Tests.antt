-- ===== src/Config/Tests.antt =====
-- Configuration files, and the theorems about them at concrete inputs.
use tlshub_ebpf.Base.{◌≡◌, refl, some, [], ◌∷◌, replicate, codes, str_eq, arith}
use tlshub_ebpf.Capture.{tlshub, openssl}
use tlshub_ebpf.Stdio.{is_space, c_string, lines, skip_space, word, scan_assignment}
use tlshub_ebpf.Stdio.Words.{word_test-IsWord}
use tlshub_ebpf.Config.{
  CaptureConfig, configured, load_config, is_comment, read_settings, read_setting, with_defaults,
}
use tlshub_ebpf.Config.Known.{HasKnown, load_config-HasKnown}
use tlshub_ebpf.Config.File.{Setting, Fits, load_config-file_of}

abbrev unset : CaptureConfig
unset = record { mode = tlshub; pod_node_config_path = replicate 256 7 }

abbrev mode_line : Setting
mode_line = record { key = codes "mode"; value = codes "openssl" }

abbrev path_line : Setting
path_line = record { key = codes "pod_node_config"; value = codes "/tmp/pods" }

mode_line-Fits : Fits mode_line
unfolding is_space is_comment
mode_line-Fits = record {
  key_word = word_test-IsWord (mode_line.key) refl;
  value_word = word_test-IsWord (mode_line.value) refl;
  key_size = omega arith;
  value_size = omega arith;
  no_comment = refl;
}

path_line-Fits : Fits path_line
unfolding is_space is_comment
path_line-Fits = record {
  key_word = word_test-IsWord (path_line.key) refl;
  value_word = word_test-IsWord (path_line.value) refl;
  key_size = omega arith;
  value_size = omega arith;
  no_comment = refl;
}

load_config-file_of_example :
    (d : CaptureConfig) × (load_config
        (some (codes "mode = openssl\npod_node_config = /tmp/pods\n"))
        unset
      ≡ configured d)
    × (d.mode ≡ openssl)
    × (c_string d.pod_node_config_path ≡ codes "/tmp/pods")
unfolding str_eq
load_config-file_of_example =
    load_config-file_of (mode_line ∷ path_line ∷ []) unset (mode_line-Fits, (path_line-Fits, tt))

load_config-HasKnown_test : HasKnown (load_config (some (codes "mode = other\n")) unset)
load_config-HasKnown_test = load_config-HasKnown (some (codes "mode = other\n")) unset

-- Without the spaces round the sign the line is read as one word and ignored.
mode_without_spaces :
    load_config (some (codes "mode=openssl\n")) unset ≡ configured (with_defaults unset)
unfolding load_config read_settings lines read_setting scan_assignment word skip_space c_string
    is_space
mode_without_spaces = refl
