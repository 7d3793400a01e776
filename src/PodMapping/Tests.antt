-- ===== src/PodMapping/Tests.antt =====
-- A small table of pods, and the theorems about it at concrete inputs.
use tlshub_ebpf.Base.{
  ◌≡◌, refl, ◌⊎◌, true, none, some, [], ◌∷◌, ◌++◌, Bytes, map, drop, take, replicate, codes, arith,
}
use tlshub_ebpf.Stdio.{is_space, lines, scan_pair, word, skip_space, c_string}
use tlshub_ebpf.Stdio.Words.{word_test-IsWord, unlines, unlines-lines}
use tlshub_ebpf.PodMapping.{
  PodNodeMapping, PodNodeTable, overrun, loaded, init_pod_node_mapping, get_node_by_pod, is_skipped,
  load_lines, read_mapping,
}
use tlshub_ebpf.PodMapping.File.{AtMost, init-AtMost, Fits, init-file_of, init_overrun}
use tlshub_ebpf.PodMapping.Print.{decimal_in, print_pod_node_mapping}
use tlshub_ebpf.PodMapping.Rows.{print-rows}
use tlshub_ebpf.PodMapping.Lookup.{IsFirst, Lacks, get_node_by_pod_lem}

abbrev web : PodNodeMapping
web = record { pod_name = codes "web-pod-1"; node_name = codes "node-1" }

abbrev db : PodNodeMapping
db = record { pod_name = codes "db-pod-1"; node_name = codes "node-3" }

abbrev pods : PodNodeTable
pods = web ∷ db ∷ []

web-Fits : Fits web
unfolding is_space is_skipped
web-Fits = record {
  pod_word = word_test-IsWord (web.pod_name) refl;
  node_word = word_test-IsWord (web.node_name) refl;
  pod_size = omega arith;
  node_size = omega arith;
  line_size = omega arith;
  no_comment = refl;
}

db-Fits : Fits db
unfolding is_space is_skipped
db-Fits = record {
  pod_word = word_test-IsWord (db.pod_name) refl;
  node_word = word_test-IsWord (db.node_name) refl;
  pod_size = omega arith;
  node_size = omega arith;
  line_size = omega arith;
  no_comment = refl;
}

init-file_of_example :
    init_pod_node_mapping true (some (codes "web-pod-1 node-1\ndb-pod-1 node-3\n")) ≡ loaded pods
init-file_of_example = init-file_of pods (web-Fits, (db-Fits, tt))

init-commented :
    init_pod_node_mapping true
      (some (codes "# pods\n\n  web-pod-1\tnode-1 x\nlonely\ndb-pod-1 node-3"))
    ≡ loaded pods
unfolding init_pod_node_mapping load_lines lines read_mapping scan_pair word skip_space c_string
    is_space
init-commented = refl

init-AtMost_test : AtMost 1024 (init_pod_node_mapping true (some (codes "a b\n")))
init-AtMost_test = init-AtMost true (some (codes "a b\n"))

init_overrun_example :
    init_pod_node_mapping true (some (replicate 300 b'a' ++ b'\n' ∷ [])) ≡ overrun
unfolding is_space is_skipped
init_overrun_example =
    init_overrun (replicate 300 b'a') [] (word_test-IsWord (replicate 300 b'a') refl) refl
      (omega arith) (omega arith)

get_node_by_pod_lem_test :
    ((node : Bytes) × (get_node_by_pod (some pods) (some (codes "db-pod-1")) ≡ some node)
      × IsFirst (codes "db-pod-1") node pods)
    ⊎ ((get_node_by_pod (some pods) (some (codes "db-pod-1")) ≡ none)
        × Lacks (codes "db-pod-1") pods)
get_node_by_pod_lem_test = get_node_by_pod_lem pods (codes "db-pod-1")

unlines-lines_test : unlines (lines (codes "a\nb")) ≡ codes "a\nb"
unlines-lines_test = unlines-lines (codes "a\nb")

print-rows_test :
    map read_mapping (drop 3 (print_pod_node_mapping (some pods)))
    ≡ some (some web) ∷ some (some db) ∷ []
print-rows_test = print-rows pods (web-Fits, (db-Fits, tt))

print_head_lem :
    take 1 (print_pod_node_mapping (some pods)) ≡ codes "Pod-Node Mapping Table (2 entries):\n" ∷ []
unfolding print_pod_node_mapping decimal_in
print_head_lem = refl
