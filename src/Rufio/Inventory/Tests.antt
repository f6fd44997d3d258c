-- ===== src/Rufio/Inventory/Tests.antt =====
-- The inventory of two drives, collected twice.
use tinkerbell.Base.{String, true, false, some, [], ◌≡◌, refl, ap, arith, inl, inr}
use tinkerbell.Base.Equality.{◌==◌, string_eq}
use tinkerbell.Rufio.Inventory.Order.{same, swap}
use tinkerbell.Rufio.Inventory.Sorted.{Contents, Distinct, SameParts, TellsApart, key_or, drive_key}
use tinkerbell.Rufio.Inventory.Convert.{first_of}
use tinkerbell.Rufio.Inventory.Memory.{drive, device, contents, two, turned}

unlike : ◌≡◌ {A = String} "b" "a" → ⊥
unfolding string_eq
unlike h = let e : false ≡ true = ap (λ (s : String). s == "a") h in cc

drives_apart : TellsApart (key_or drive_key) two
unfolding first_of string_eq
drives_apart a b (inl e) (inl f) h = ground (arith, e, f)
drives_apart a b (inl e) (inr (inl f)) h = absurd (unlike (ground (arith, e, f, h)))
drives_apart a b (inr (inl e)) (inl f) h = absurd (unlike (ground (arith, e, f, h)))
drives_apart a b (inr (inl e)) (inr (inl f)) h = ground (arith, e, f)
drives_apart a b (inl e) (inr (inr f)) h = absurd f
drives_apart a b (inr (inl e)) (inr (inr f)) h = absurd f
drives_apart a b (inr (inr e)) p h = absurd e

abbrev all_apart : Distinct (device two)
all_apart = record {
  cpu = λ a b p q h. absurd p;
  memory = λ a b p q h. absurd p;
  nic = λ a b p q h. absurd p;
  drive = drives_apart;
  controller = λ a b p q h. absurd p;
  psu = λ a b p q h. absurd p;
  tpm = λ a b p q h. absurd p;
  gpu = λ a b p q h. absurd p;
  ports = tt;
  bmc_ports = tt;
}

-- Other texts, at the second poll.
abbrev other_contents : Contents
other_contents = record contents { of_drive = λ x. "" }

abbrev same_parts : SameParts (device two) (device turned)
same_parts = record {
  common = refl;
  bios = refl;
  bmc = refl;
  mainboard = refl;
  cpus = same [];
  memory = same [];
  nics = same [];
  drives = swap (some (drive "b")) (some (drive "a")) [];
  storage_controllers = same [];
  psus = same [];
  tpms = same [];
  gpus = same [];
}
