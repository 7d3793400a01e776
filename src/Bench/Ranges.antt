-- ===== src/Bench/Ranges.antt =====
-- What the options that bench/src/main.c accepts are good for.
use tlshub_ebpf.Base.{
  ℕ, ◌≤◌, inl, inr, ℤ, pos, negsuc, Bool, true, false, ◌||◌, Option, none, some, List, [], ◌∷◌,
  Bytes, ◌==◌, ltb, if◌then◌else◌, Bool-cases, Option-cases, arith,
}
use tlshub_ebpf.Metrics.Proc.{scan_llu}
use tlshub_ebpf.Bench.Types.{BenchConfig}
use tlshub_ebpf.Bench.Options.{
  Parsed, configured, exits, parse_mode, init_config, port_of, atoi, count_of, size_t_of, size_of,
  assigned, apply_option, parse_options,
}

abbrev IsBetween : ℕ → ℕ → ℕ → Type 0
IsBetween least most n = (least ≤ n) × (n ≤ most)

-- The ranges that the messages name.
abbrev pub InRange : BenchConfig → Type 0
InRange config =
    IsBetween 1 65535 config.target_port
    × IsBetween 1 65535 config.listen_port
    × IsBetween 1 10485760 config.data_size
    × IsBetween 1 1000 config.concurrency
    × IsBetween 1 10000 config.total_connections

-- What holds of a configuration, if the reading of the options gave one.
abbrev pub OfParsed : (BenchConfig → Type 0) → Parsed → Type 0
OfParsed P (configured config) = P config
OfParsed P (exits status) = Unit {0}

-- What holds of a value, if there is one.
abbrev OfRead : {A : Type 0} → (A → Type 0) → Option A → Type 0
OfRead P none = Unit {0}
OfRead P (some a) = P a

port_of-IsBetween : (s : Bytes) → OfRead (IsBetween 1 65535) (port_of s)
unfolding port_of
port_of-IsBetween s = elim (Option-cases (scan_llu s)) [
  | inl e ↦ rw (port_of, e) tt
  | inr ((port, c ∷ cs), e) ↦ rw (port_of, e) tt
  | inr ((port, []), e) ↦ elim (Bool-cases (port == 0 || ltb 65535 port)) [
    | inl e' ↦ rw (port_of, e, e') tt
    | inr e' ↦ rw (port_of, e, e') (ground arith, ground arith)
  ]
]

count_of-IsBetween : (most : ℕ) (x : ℤ) → OfRead (IsBetween 1 most) (count_of most x)
unfolding count_of
count_of-IsBetween most (negsuc n) = tt
count_of-IsBetween most (pos n) = elim (Bool-cases (n == 0 || ltb most n)) [
  | inl e ↦ rw (count_of, e) tt
  | inr e ↦ rw (count_of, e) (ground arith, ground arith)
]

size_of-IsBetween : (n : ℕ) → OfRead (IsBetween 1 10485760) (size_of n)
unfolding size_of
size_of-IsBetween n = elim (Bool-cases (n == 0 || ltb 10485760 n)) [
  | inl e ↦ rw (size_of, e) tt
  | inr e ↦ rw (size_of, e) (ground arith, ground arith)
]

assigned-OfParsed :
    {A : Type 0} {P : A → Type 0} (set : A → BenchConfig) (o : Option A)
    → OfRead P o
    → ((a : A) → P a → InRange (set a))
    → OfParsed InRange (assigned set o)
unfolding assigned
assigned-OfParsed set none h keeps = tt
assigned-OfParsed set (some a) h keeps = keeps a h

any_read : {A : Type 0} (o : Option A) → OfRead (λ x. Unit {0}) o
any_read none = tt
any_read (some a) = tt

either_way :
    (x y : Parsed) (b : Bool)
    → OfParsed InRange x
    → OfParsed InRange y
    → OfParsed InRange (if b then x else y)
either_way x y true h h' = h
either_way x y false h h' = h'

apply_option-InRange :
    (config : BenchConfig) (opt : ℕ) (optarg : Bytes)
    → InRange config
    → OfParsed InRange (apply_option config opt optarg)
unfolding apply_option
apply_option-InRange config opt optarg (target, listen, size, concurrency, total) =
    let number = atoi optarg in
    either_way _ _ (opt == b'm')
      (assigned-OfParsed {P = λ x. Unit {0}} _ (parse_mode optarg) (any_read _)
        (λ x h. (target, listen, size, concurrency, total)))
      (either_way _ _ (opt == b't') (target, listen, size, concurrency, total)
        (either_way _ _ (opt == b'p')
          (assigned-OfParsed _ (port_of optarg) (port_of-IsBetween optarg)
            (λ x h. (h, listen, size, concurrency, total)))
          (either_way _ _ (opt == b'l')
            (assigned-OfParsed _ (port_of optarg) (port_of-IsBetween optarg)
              (λ x h. (target, h, size, concurrency, total)))
            (either_way _ _ (opt == b's')
              (assigned-OfParsed _ (size_of (size_t_of number))
                (size_of-IsBetween (size_t_of number))
                (λ x h. (target, listen, h, concurrency, total)))
              (either_way _ _ (opt == b'c')
                (assigned-OfParsed _ (count_of 1000 number) (count_of-IsBetween 1000 number)
                  (λ x h. (target, listen, size, h, total)))
                (either_way _ _ (opt == b'n')
                  (assigned-OfParsed _ (count_of 10000 number) (count_of-IsBetween 10000 number)
                    (λ x h. (target, listen, size, concurrency, h)))
                  (either_way _ _ (opt == b'j') (target, listen, size, concurrency, total)
                    (either_way _ _ (opt == b'o') (target, listen, size, concurrency, total)
                      (either_way _ _ (opt == b'v') (target, listen, size, concurrency, total)
                        (either_way _ _ (opt == b'h') tt tt))))))))))

-- Whatever the options are: if the program does not exit, the configuration that it goes on with is in range.
pub parse_options-InRange :
    (config : BenchConfig) (options : List (ℕ × Bytes))
    → InRange config
    → OfParsed InRange (parse_options config options)
unfolding parse_options
parse_options-InRange config [] h = h
parse_options-InRange config ((opt, optarg) ∷ options) h =
    continued (apply_option config opt optarg) (apply_option-InRange config opt optarg h)
      (λ config' h'. parse_options-InRange config' options h')
  where
    continued :
        (p : Parsed)
        → OfParsed InRange p
        → ((config' : BenchConfig)
            → InRange config'
            → OfParsed InRange (parse_options config' options))
        → OfParsed InRange (elim p [
          | exits status ↦ exits status
          | configured config' ↦ parse_options config' options
        ])
    continued (exits status) h' onward = tt
    continued (configured config') h' onward = onward config' h'

pub init_config-InRange : (json csv : Bytes) → InRange (init_config json csv)
unfolding init_config
init_config-InRange json csv = (
  (omega arith, omega arith),
  (omega arith, omega arith),
  (omega arith, omega arith),
  (omega arith, omega arith),
  (omega arith, omega arith),
)
