-- ===== src/Bench/Options.antt =====
-- The command line of bench/src/main.c: `parse_mode`, `init_config` and the options, with what they use of
-- `strtoul` and `atoi`. What `getopt_long` gives is a list of options with their arguments.
use tlshub_ebpf.Base.{
  ℕ, ◌+◌, ◌-◌, ◌*◌, ◌%◌, ◌^◌, ℤ, pos, negsuc, true, false, ◌||◌, Option, none, some, List, [], ◌∷◌,
  Bytes, ◌==◌, ltb, if◌then◌else◌, replicate, overwrite, min, codes, str_eq,
}
use tlshub_ebpf.Stdio.{skip_space}
use tlshub_ebpf.Config.{strncpy}
use tlshub_ebpf.Metrics.Record.{int_of}
use tlshub_ebpf.Metrics.Proc.{digits, scan_llu}
use tlshub_ebpf.Bench.Types.{BenchMode, client, server, BenchConfig}

-- How the reading of the options goes: on, with a configuration, or the program exits with a status.
pub data Parsed : Type 0 where
  configured : BenchConfig → Parsed
  exits : ℕ → Parsed

abbrev pub exit_success : ℕ
exit_success = 0

abbrev pub exit_failure : ℕ
exit_failure = 1

-- `parse_mode(mode_str)`
unfoldable pub parse_mode : Bytes → Option BenchMode
parse_mode mode_str =
    if str_eq mode_str (codes "client")
    then some client
    else if str_eq mode_str (codes "server")
    then some server
    else none

-- `init_config(config)`, with the two names that `snprintf` makes of the time and the process.
unfoldable pub init_config : Bytes → Bytes → BenchConfig
init_config json csv = record {
  mode = client;
  target_ip = overwrite (codes "127.0.0.1") (replicate 256 0);
  target_port = 8080;
  listen_port = 9090;
  data_size = 1024;
  concurrency = 1;
  total_connections = 10;
  verbose = false;
  output_json = overwrite json (replicate 512 0);
  output_csv = overwrite csv (replicate 512 0);
}

-- A port: `strtoul` and the tests on what it read; `none` if it is refused.
unfoldable pub port_of : Bytes → Option ℕ
port_of optarg = elim (scan_llu optarg) [
  | none ↦ none
  | some (port, rest) ↦ elim rest [
    | c ∷ cs ↦ none
    | [] ↦ if port == 0 || ltb 65535 port then none else some (port % 2 ^ 16)
  ]
]

-- The value of `strtol` on digits behind a sign, cast to `int`.
unfoldable pub positive_int : Bytes → ℤ
unfolding int_of
positive_int s = int_of (min (digits 0 s).0 (2 ^ 63 - 1) % 2 ^ 32)

unfoldable pub negative_int : Bytes → ℤ
unfolding int_of
negative_int s = int_of ((2 ^ 64 - min (digits 0 s).0 (2 ^ 63)) % 2 ^ 32)

unfoldable pub signed_int : Bytes → ℤ
unfolding positive_int negative_int
signed_int [] = pos 0
signed_int (c ∷ cs) =
    if c == b'+'
    then positive_int cs
    else if c == b'-'
    then negative_int cs
    else positive_int (c ∷ cs)

-- `atoi(s)`
unfoldable pub atoi : Bytes → ℤ
unfolding signed_int
atoi s = signed_int (skip_space s)

-- A positive `int` up to a bound; `none` if it is refused.
unfoldable pub count_of : ℕ → ℤ → Option ℕ
count_of most (pos n) = if n == 0 || ltb most n then none else some n
count_of most (negsuc n) = none

-- The data size: the `int` becomes a `size_t`.
unfoldable pub size_t_of : ℤ → ℕ
size_t_of (pos n) = n
size_t_of (negsuc n) = 2 ^ 64 - (n + 1)

unfoldable pub size_of : ℕ → Option ℕ
size_of n = if n == 0 || ltb (10 * 1024 * 1024) n then none else some n

-- The assignment of a value that was read, or the exit if it was refused.
unfoldable pub assigned : {A : Type 0} → (A → BenchConfig) → Option A → Parsed
assigned set none = exits exit_failure
assigned set (some a) = configured (set a)

-- The cases of the `switch`, for the options of `getopt_long`.
unfoldable pub apply_option : BenchConfig → ℕ → Bytes → Parsed
unfolding parse_mode port_of count_of size_of assigned
apply_option config opt optarg =
    if opt == b'm'
    then assigned (λ x. record config { mode = x }) (parse_mode optarg)
    else if opt == b't'
    then configured (record config { target_ip = strncpy config.target_ip optarg 255 })
    else if opt == b'p'
    then assigned (λ x. record config { target_port = x }) (port_of optarg)
    else if opt == b'l'
    then assigned (λ x. record config { listen_port = x }) (port_of optarg)
    else if opt == b's'
    then assigned (λ x. record config { data_size = x }) (size_of (size_t_of (atoi optarg)))
    else if opt == b'c'
    then assigned (λ x. record config { concurrency = x }) (count_of 1000 (atoi optarg))
    else if opt == b'n'
    then assigned (λ x. record config { total_connections = x }) (count_of 10000 (atoi optarg))
    else if opt == b'j'
    then configured (record config { output_json = strncpy config.output_json optarg 511 })
    else if opt == b'o'
    then configured (record config { output_csv = strncpy config.output_csv optarg 511 })
    else if opt == b'v'
    then configured (record config { verbose = true })
    else if opt == b'h'
    then exits exit_success
    else exits exit_failure

-- The loop over the options.
unfoldable pub parse_options : BenchConfig → List (ℕ × Bytes) → Parsed
unfolding apply_option
parse_options config [] = configured config
parse_options config ((opt, optarg) ∷ options) = elim (apply_option config opt optarg) [
  | exits status ↦ exits status
  | configured config' ↦ parse_options config' options
]
