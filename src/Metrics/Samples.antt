-- ===== src/Metrics/Samples.antt =====
-- Natural numbers for doubles.
use tlshub_ebpf.Metrics.Stats.Tallies.{IsOrder}
use tlshub_ebpf.Base.{true, ◌≡◌, arith, ℕ, ◌+◌, ◌-◌, ◌*◌, ◌/◌, pos_part, ltb}
use tlshub_ebpf.Metrics.Types.{Doubles}

abbrev pub natural : Doubles ℕ
natural = record {
  of_ℕ = λ n. n;
  of_ℤ = pos_part;
  add = λ x y. x + y;
  sub = λ x y. x - y;
  mul = λ x y. x * y;
  div = λ x y. x / y;
  lt = ltb;
}

pub natural-IsOrder : IsOrder natural
natural-IsOrder = record {
  IsNumber = λ x. Unit {0};
  of_ℕ-IsNumber = λ n. tt;
  div-IsNumber = λ n m. tt;
  lt_irrefl = λ x. ground arith;
  lt_asymm = λ x y h. ground arith;
  le_trans = λ x y z n h h'. ground arith;
}

pub natural-lt-IsNumber : (x y : ℕ) → natural.lt x y ≡ true → natural-IsOrder.IsNumber y
unfolding natural-IsOrder
natural-lt-IsNumber x y e = tt
