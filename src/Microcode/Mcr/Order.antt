-- ===== src/Microcode/Mcr/Order.antt =====
-- A file in partition order is read as one in MIT's order is.
use muir.Base.{ℕ, ◌%◌, ◌≢◌, List, length, not, ◌==◌, if◌then◌else◌}
use muir.Microcode.{
  Result, ok, err, Ensures, Ensures-bind, Ensures-if, out_of_fuel, not_whole_words,
}
use muir.Microcode.Mcr.{
  Mcr, parse, parse_partition_order, swap_halves, or_mit_order, order_error, swapped,
}
use muir.Microcode.Mcr.Bounds.{IsParsed, parse-Ensures}

or_mit_order-Ensures :
    (x : Result Mcr) (bytes : List ℕ) → Ensures IsParsed x → Ensures IsParsed (or_mit_order x bytes)
or_mit_order-Ensures (ok m) bytes h = h
or_mit_order-Ensures (err e) bytes h = go (parse bytes)
  where
    go : (y : Result Mcr) → order_error e y ≢ out_of_fuel
    go (ok m) = λ q. cc
    go (err e') = h

pub parse_partition_order-Ensures :
    (bytes : List ℕ) → Ensures IsParsed (parse_partition_order bytes)
unfolding parse_partition_order swap_halves
parse_partition_order-Ensures bytes =
    Ensures-bind IsParsed (λ s. Unit {0})
      (if not (length bytes % 4 == 0)
        then err (not_whole_words (length bytes))
        else ok (swapped bytes))
      _ (Ensures-if (λ s. Unit {0}) (not (length bytes % 4 == 0)) _ _ (λ q. cc) tt)
      (λ s u. or_mit_order-Ensures (parse s) bytes (parse-Ensures s))
