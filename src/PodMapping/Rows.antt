-- ===== src/PodMapping/Rows.antt =====
-- The rows that `print_pod_node_mapping` prints are lines that `init_pod_node_mapping` reads.
use tlshub_ebpf.Base.{
  ◌-◌, ◌≡◌, refl, ap, ◌∙◌, false, leb, some, [], ◌∷◌, ◌++◌, map, Bytes, drop, length, replicate,
  take_all, append_assoc, arith,
}
use tlshub_ebpf.Stdio.{scan_pair, two}
use tlshub_ebpf.Stdio.Words.{IsWord-IsPlain, IsPlain, IsPlain-append, c_string-line}
use tlshub_ebpf.Stdio.Columns.{spaces-IsPlain, scan_pair-spaces}
use tlshub_ebpf.PodMapping.{
  max_name, PodNodeMapping, PodNodeTable, is_skipped, overruns, scan_mapping, read_mapping,
}
use tlshub_ebpf.PodMapping.File.{Fits, All, is_skipped-append, not_leb}
use tlshub_ebpf.PodMapping.Print.{print_mapping, print_pod_node_mapping}

-- The row without its newline.
abbrev cells : PodNodeMapping → Bytes
cells m =
    m.pod_name
    ++ (replicate (30 - length m.pod_name) b' '
        ++ (b' ' ∷ (m.node_name ++ replicate (30 - length m.node_name) b' ')))

print_mapping-cells : (m : PodNodeMapping) → print_mapping m ≡ cells m ++ b'\n' ∷ []
unfolding print_mapping
print_mapping-cells m = simp append_assoc

cells-IsPlain : (m : PodNodeMapping) → Fits m → IsPlain (cells m)
cells-IsPlain m f = IsPlain-append m.pod_name _ (IsWord-IsPlain m.pod_name f.pod_word) (
    IsPlain-append (replicate (30 - length m.pod_name) b' ') _
      (spaces-IsPlain (30 - length m.pod_name))
      (
        (refl, refl),
        IsPlain-append m.node_name _ (IsWord-IsPlain m.node_name f.node_word)
            (spaces-IsPlain (30 - length m.node_name)),
      ))

scan_pair-cells :
    (m : PodNodeMapping) → Fits m → scan_pair (cells m ++ b'\n' ∷ []) ≡ two m.pod_name m.node_name
scan_pair-cells m f =
    ap scan_pair (rearranged m)
    ∙ scan_pair-spaces m.pod_name m.node_name (30 - length m.pod_name) (30 - length m.node_name)
        f.pod_word f.node_word
  where
    rearranged :
        (m : PodNodeMapping)
        → cells m ++ b'\n' ∷ []
          ≡ m.pod_name
            ++ (replicate (30 - length m.pod_name) b' '
                ++ b' ' ∷ (m.node_name ++ (replicate (30 - length m.node_name) b' ' ++ b'\n' ∷ [])))
    rearranged m = simp append_assoc

read_mapping-print_mapping :
    (m : PodNodeMapping) → Fits m → read_mapping (print_mapping m) ≡ some (some m)
unfolding read_mapping scan_mapping overruns
read_mapping-print_mapping m f =
    let plain = c_string-line (cells m) (cells-IsPlain m f) in
    let pod_fits : leb max_name (length m.pod_name) ≡ false = not_leb 256 _ f.pod_size in
    let node_fits : leb max_name (length m.node_name) ≡ false = not_leb 256 _ f.node_size in
    let skipped : is_skipped (cells m ++ b'\n' ∷ []) ≡ false =
      ap is_skipped (append_assoc m.pod_name _ (b'\n' ∷ []))
      ∙ is_skipped-append m.pod_name _ f.pod_word
      ∙ f.no_comment in
    rw (
      print_mapping-cells m,
      skipped,
      plain,
      scan_pair-cells m f,
      scan_mapping,
      pod_fits,
      node_fits,
      take_all 255 m.pod_name (omega (arith, f.pod_size)),
      take_all 255 m.node_name (omega (arith, f.node_size)),
    )

rows-read :
    (t : PodNodeTable)
    → All Fits t
    → map read_mapping (map print_mapping t) ≡ map (λ m. some (some m)) t
rows-read [] fits = refl
rows-read (m ∷ t) fits = rw (read_mapping-print_mapping m fits.0, rows-read t fits.1) refl

-- Behind the three lines of its head, `print_pod_node_mapping` prints one line for each entry that
-- `init_pod_node_mapping`, given that line, reads as the same entry.
pub print-rows :
    (t : PodNodeTable)
    → All Fits t
    → map read_mapping (drop 3 (print_pod_node_mapping (some t))) ≡ map (λ m. some (some m)) t
unfolding print_pod_node_mapping
print-rows t fits = rows-read t fits
