-- ===== src/Controller/Functions/Tests.antt =====
-- The functions for templates at concrete texts.
use tinkerbell.Base.{
  ℕ, ◌+◌, ◌-◌, ◌≤◌, String, Option, none, some, List, [], ◌∷◌, ◌≡◌, ◌≢◌, refl, arith,
}
use tinkerbell.Base.Fallible.{ok}
use tinkerbell.Controller.Functions.{
  pow2, leading_ones, netmask_to_prefix_length, write, write_all, format_partition,
}
use tinkerbell.Controller.Functions.Netmask.{leading_ones-mask, netmask_to_prefix_length-zero}

abbrev digits : ℕ → String
digits n = "0"

-- 255.0.255.0
abbrev broken : String → Option (Option ℕ)
broken t = some (some 4278255360)

broken_differs : (k : ℕ) → k ≤ 32 → 4278255360 + pow2 (32 - k) ≢ pow2 32
unfolding leading_ones
broken_differs k h e = let impossible = leading_ones-mask 32 k 4278255360 h e in cc

netmask_to_prefix_length-zero_example :
    netmask_to_prefix_length broken digits "255.0.255.0" ≡ ok (digits 0)
netmask_to_prefix_length-zero_example =
    netmask_to_prefix_length-zero broken digits "255.0.255.0" 4278255360 refl (omega arith)
      broken_differs

abbrev pieces : List (List ℕ)
pieces = (97 ∷ []) ∷ (98 ∷ 99 ∷ []) ∷ []

pieces_fit : write_all 3 pieces [] ≡ some (97 ∷ 98 ∷ 99 ∷ [])
unfolding write_all write
pieces_fit = refl

pieces_do_not_fit : write_all 2 pieces [] ≡ none
unfolding write_all write
pieces_do_not_fit = refl

-- /dev/sda and /dev/nvme0n1
partition_of_sda :
    format_partition (λ n. 49 ∷ []) (47 ∷ 100 ∷ 101 ∷ 118 ∷ 47 ∷ 115 ∷ 100 ∷ 97 ∷ []) 1
    ≡ 47 ∷ 100 ∷ 101 ∷ 118 ∷ 47 ∷ 115 ∷ 100 ∷ 97 ∷ 49 ∷ []
unfolding format_partition
partition_of_sda = refl
