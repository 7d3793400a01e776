-- ===== src/PodMapping/File.antt =====
-- What `init_pod_node_mapping` makes of a file.
use tlshub_ebpf.Base.{
  ℕ, zero, suc, ◌+◌, ◌≤◌, ◌<◌, ◌≡◌, refl, ap, ◌∙◌, inl, inr, Bool, true, false, Bool-cases, Option,
  none, some, Option-cases, List, [], ◌∷◌, ◌++◌, Bytes, ltb, leb, ltb→lt, length, length-append,
  take, take_all, append_assoc, append-nil, arith,
}
use tlshub_ebpf.Stdio.{lines, c_string, scan_pair, two, word}
use tlshub_ebpf.Stdio.Words.{
  lines_nil, scan_pair_one, IsWord-IsPlain, c_string-line, IsWord, IsPlain, IsPlain-append,
  lines-cons, scan_pair-append,
}
use tlshub_ebpf.PodMapping.{
  max_mappings, max_name, PodNodeMapping, PodNodeTable, Load, overrun, null, loaded, is_skipped,
  overruns, scan_mapping, read_mapping, add, load_lines, init_pod_node_mapping,
}

-- A load that gave no table of more than `n` entries.
abbrev pub AtMost : ℕ → Load → Type 0
AtMost n overrun = Unit
AtMost n null = Unit
AtMost n (loaded t) = length t ≤ n

length-add : (t : PodNodeTable) (m : Option PodNodeMapping) → length (add t m) ≤ length t + 1
length-add t none = omega arith
length-add t (some m) = omega (arith, length-append t (m ∷ []))

load_lines-AtMost :
    (t : PodNodeTable) (ls : List Bytes)
    → length t ≤ max_mappings
    → AtMost max_mappings (load_lines t ls)
unfolding load_lines
load_lines-AtMost t [] h = h
load_lines-AtMost t (line ∷ ls) h = elim (Bool-cases (ltb (length t) max_mappings)) [
  | inr full ↦ rw (full, load_lines) h
  | inl room ↦ elim (Option-cases (read_mapping line)) [
    | inl e ↦ rw (room, load_lines, e) tt
    | inr (m, e) ↦
        let more = length-add t m in
        rw (room, load_lines, e) (load_lines-AtMost (add t m) ls (ground arith))
  ]
]

-- Whatever the file holds, the table that is returned has at most 1024 entries.
pub init-AtMost :
    (granted : Bool) (file : Option Bytes)
    → AtMost max_mappings (init_pod_node_mapping granted file)
unfolding init_pod_node_mapping
init-AtMost false file = tt
init-AtMost true none = tt
init-AtMost true (some bytes) = load_lines-AtMost [] (lines bytes) (omega arith)

-- An entry that a line of the file can hold: two words that fit their buffers and together with the
-- space and the newline fit a line, the first not beginning like a comment.
pub record Fits (m : PodNodeMapping) : Type 0 where
  pub pod_word : IsWord m.pod_name
  pub node_word : IsWord m.node_name
  pub pod_size : length m.pod_name < 256
  pub node_size : length m.node_name < 256
  pub line_size : length m.pod_name + length m.node_name < 510
  pub no_comment : is_skipped m.pod_name ≡ false

abbrev pub All : (PodNodeMapping → Type 0) → PodNodeTable → Type 0
All P [] = Unit {0}
All P (m ∷ ms) = P m × All P ms

-- The file with one line for each entry.
abbrev pub line_of : PodNodeMapping → Bytes
line_of m = m.pod_name ++ b' ' ∷ m.node_name

abbrev pub file_of : PodNodeTable → Bytes
file_of [] = []
file_of (m ∷ ms) = line_of m ++ b'\n' ∷ file_of ms

line_of-IsPlain : (m : PodNodeMapping) → Fits m → IsPlain (line_of m)
line_of-IsPlain m f =
    IsPlain-append m.pod_name (b' ' ∷ m.node_name) (IsWord-IsPlain m.pod_name f.pod_word)
      ((refl, refl), IsWord-IsPlain m.node_name f.node_word)

pub is_skipped-append : (w rest : Bytes) → IsWord w → is_skipped (w ++ rest) ≡ is_skipped w
unfolding is_skipped
is_skipped-append [] rest h = absurd h
is_skipped-append (c ∷ cs) rest h = refl

pub not_leb : (n k : ℕ) → k < n → leb n k ≡ false
not_leb n k h = ground arith

le_leb : (a b : ℕ) → a ≤ b → leb a b ≡ true
le_leb a b h = ground arith

ltb_full : (a b : ℕ) → ltb a b ≡ false → a ≤ b → a ≡ b
ltb_full a b e h = ground arith

module _ (t : PodNodeTable) where
  load_lines_nil : load_lines t [] ≡ loaded t
  unfolding load_lines
  load_lines_nil = refl

  module _ (line : Bytes) (ls : List Bytes) where
    load_lines_full : ltb (length t) max_mappings ≡ false → load_lines t (line ∷ ls) ≡ loaded t
    unfolding load_lines
    load_lines_full full = rw (full, load_lines)

    load_lines_room :
        (m : Option PodNodeMapping)
        → ltb (length t) max_mappings ≡ true
        → read_mapping line ≡ some m
        → load_lines t (line ∷ ls) ≡ load_lines (add t m) ls
    unfolding load_lines
    load_lines_room m room e = rw (room, load_lines, e)

    load_lines_overrun :
        ltb (length t) max_mappings ≡ true
        → read_mapping line ≡ none
        → load_lines t (line ∷ ls) ≡ overrun
    unfolding load_lines
    load_lines_overrun room e = rw (room, load_lines, e)

read_mapping_overrun :
    (w : Bytes)
    → IsWord w
    → is_skipped w ≡ false
    → 256 ≤ length w
    → read_mapping (w ++ b'\n' ∷ []) ≡ none
unfolding read_mapping scan_mapping overruns
read_mapping_overrun w h plain long =
    let over : leb max_name (length w) ≡ true = le_leb 256 _ long in
    rw (
      is_skipped-append w (b'\n' ∷ []) h,
      plain,
      c_string-line w (IsWord-IsPlain w h),
      scan_pair_one w h,
      scan_mapping,
      over,
    )

read_mapping-line :
    (m : PodNodeMapping) → Fits m → read_mapping (line_of m ++ b'\n' ∷ []) ≡ some (some m)
unfolding read_mapping scan_mapping overruns
read_mapping-line m f =
    let text = m.pod_name ++ b' ' ∷ (m.node_name ++ b'\n' ∷ []) in
    let whole : c_string text ≡ text =
      rw (append_assoc m.pod_name (b' ' ∷ m.node_name) (b'\n' ∷ [])) at
        (c_string-line (line_of m) (line_of-IsPlain m f)) in
    let scanned : scan_pair (c_string text) ≡ two m.pod_name m.node_name =
      ap scan_pair whole ∙ scan_pair-append m.pod_name m.node_name f.pod_word f.node_word in
    let pod_fits : leb max_name (length m.pod_name) ≡ false = not_leb 256 _ f.pod_size in
    let node_fits : leb max_name (length m.node_name) ≡ false = not_leb 256 _ f.node_size in
    rw (
      append_assoc m.pod_name (b' ' ∷ m.node_name) (b'\n' ∷ []),
      is_skipped-append m.pod_name (b' ' ∷ m.node_name ++ b'\n' ∷ []) f.pod_word,
      f.no_comment,
      scanned,
      scan_mapping,
      pod_fits,
      node_fits,
      take_all 255 m.pod_name (omega (arith, f.pod_size)),
      take_all 255 m.node_name (omega (arith, f.node_size)),
    )

lines-file_of :
    (m : PodNodeMapping) (ms : PodNodeTable)
    → Fits m
    → lines (file_of (m ∷ ms)) ≡ (line_of m ++ b'\n' ∷ []) ∷ lines (file_of ms)
lines-file_of m ms f =
    lines-cons (line_of m) (file_of ms) (line_of-IsPlain m f)
      (omega (arith, length-append m.pod_name (b' ' ∷ m.node_name), f.line_size))

take_full : (n : ℕ) (t rest : PodNodeTable) → length t ≡ n → take n (t ++ rest) ≡ t
take_full zero [] rest e = refl
take_full (suc n) [] rest e = absurd (omega arith)
take_full zero (x ∷ t) rest e = absurd (omega arith)
take_full (suc n) (x ∷ t) rest e = ap (◌∷◌ x) (take_full n t rest (omega arith))

load_lines-file_of :
    (ms t : PodNodeTable)
    → All Fits ms
    → length t ≤ max_mappings
    → load_lines t (lines (file_of ms)) ≡ loaded (take max_mappings (t ++ ms))
load_lines-file_of [] t fits h =
    rw (append-nil, take_all max_mappings t h, lines_nil) (load_lines_nil t)
load_lines-file_of (m ∷ ms) t fits h = elim (Bool-cases (ltb (length t) max_mappings)) [
  | inr full ↦
      rw (lines-file_of m ms fits.0, take_full max_mappings t (m ∷ ms) (ltb_full _ _ full h))
        (load_lines_full t _ _ full)
  | inl room ↦ rw (lines-file_of m ms fits.0) (
      load_lines_room t _ _ (some m) room (read_mapping-line m fits.0)
      ∙ load_lines-file_of ms (t ++ m ∷ []) fits.1
          (omega (arith, length-append t (m ∷ []), ltb→lt _ _ room))
      ∙ rw append_assoc)
]

-- A table whose names are words without blanks, each below 256 bytes and the two of an entry together below 510,
-- the first of them not beginning like a comment: written as a file, one line for each entry, it is read back,
-- the first 1024 entries in order, with both names as they were, when the memory for the table is granted.
pub init-file_of :
    (ms : PodNodeTable)
    → All Fits ms
    → init_pod_node_mapping true (some (file_of ms)) ≡ loaded (take max_mappings ms)
unfolding init_pod_node_mapping
init-file_of ms fits = load_lines-file_of ms [] fits (omega arith)

-- A first line that is a single word of 256 bytes or more, as many as fit a line and no comment,
-- overruns the buffer of the pod's name.
pub init_overrun :
    (w rest : Bytes)
    → IsWord w
    → is_skipped w ≡ false
    → 256 ≤ length w
    → length w < 511
    → init_pod_node_mapping true (some (w ++ b'\n' ∷ rest)) ≡ overrun
unfolding init_pod_node_mapping
init_overrun w rest word plain long short =
    rw (lines-cons w rest (IsWord-IsPlain w word) short)
      (load_lines_overrun [] _ _ refl (read_mapping_overrun w word plain long))
