-- ===== src/Attributes/Exchange.antt =====
-- What the service makes of the attributes that an agent sends.
use tinkerbell.Base.{
  Option, none, some, List, [], ◌∷◌, map, ◌≡◌, refl, ap, ◌∙◌, sym, arith, All, ◌≢◌,
}
use mathlib.Core.Option
use tinkerbell.Attributes.Gathered
use tinkerbell.Attributes.Message
use tinkerbell.Attributes.ToProto.{
  each, push, memory_to_proto, chassis_to_proto, bios_to_proto, baseboard_to_proto,
  product_to_proto, processor_to_proto, block_to_proto, network_to_proto, pci_to_proto,
  gpu_to_proto, cpu_to_proto, with_processors, attributes_to_proto, to_proto, assembled, ◌>>=◌,
}
use tinkerbell.Attributes.Convert.{
  memory_of_proto, chassis_of_proto, bios_of_proto, baseboard_of_proto, product_of_proto,
  processor_of_proto, block_of_proto, network_of_proto, pci_of_proto, gpu_of_proto, convert,
  attributes_of_proto, unless_nil, cpu_of_proto, empty_cpu, empty_memory, empty_chassis, empty_bios,
  empty_baseboard, empty_product,
}

abbrev pub or_empty : {A : Type 0} → A → Option A → Option A
or_empty e none = some e
or_empty e (some x) = some x

-- The attributes with the parts that are nil made empty.
abbrev pub filled : Gathered.AgentAttributes → Gathered.AgentAttributes
filled a = record a {
  cpu = or_empty empty_cpu a.cpu;
  memory = or_empty empty_memory a.memory;
  chassis = or_empty empty_chassis a.chassis;
  bios = or_empty empty_bios a.bios;
  baseboard = or_empty empty_baseboard a.baseboard;
  product = or_empty empty_product a.product;
}

each-back :
    {A B : Type 0}
    → (f : A → B) (g : B → A) → ((x : A) → g (f x) ≡ x)
    → (xs : List (Option A)) (ys : List B) → each f xs ≡ some ys
    → map (λ y. some (g y)) ys ≡ xs
unfolding each push
each-back f g e [] ys h = ground (arith, h)
each-back f g e (none ∷ xs) ys h = absurd (cc)
each-back {A} {B} f g e (some x ∷ xs) ys h = pushed (each-back f g e xs) (each f xs) refl h
  where
    pushed :
        ((zs : List B) → each f xs ≡ some zs → map (λ y. some (g y)) zs ≡ xs)
        → (o : Option (List B)) → each f xs ≡ o
        → push (f x) o ≡ some ys
        → map (λ y. some (g y)) ys ≡ some x ∷ xs
    pushed back none q k = absurd (cc)
    pushed back (some zs) q k =
        let w : f x ∷ zs ≡ ys = ground (arith, k) in
        ap (map (λ y. some (g y))) (sym w) ∙ (λ i. some (e x i) ∷ back zs q i)

bind-some :
    {A B : Type 0}
    → (o : Option A) (f : A → Option B) (b : B) → (o >>= f) ≡ some b
    → (a : A) × (o ≡ some a) × (f a ≡ some b)
bind-some none f b h = absurd (cc)
bind-some (some a) f b h = (a, refl, h)

map-some :
    {A B : Type 0}
    → (f : A → B) (o : Option A) (b : B) → Option.map f o ≡ some b
    → (a : A) × (o ≡ some a) × (f a ≡ b)
map-some f none b h = absurd (cc)
map-some f (some a) b h = (a, refl, ground (arith, h))

processors-back :
    (c : Gathered.Cpu) (o : Option (List Message.Processor)) (m : Option Message.Cpu)
    → each processor_to_proto c.processors ≡ o
    → with_processors c o ≡ some m
    → unless_nil cpu_of_proto (some empty_cpu) m ≡ some c
unfolding with_processors
processors-back c none m e h = absurd (cc)
processors-back c (some ps) m e h =
    let got : some
          (record { total_cores = c.total_cores; total_threads = c.total_threads; processors = ps })
        ≡ m =
      ground (arith, h) in
    let back = each-back processor_to_proto processor_of_proto (λ x. refl) c.processors ps e in
    ap (unless_nil cpu_of_proto (some empty_cpu)) (sym got)
    ∙ (λ i. some (record c { processors = back i }))

cpu-back :
    (c : Option Gathered.Cpu) (m : Option Message.Cpu)
    → cpu_to_proto c ≡ some m
    → unless_nil cpu_of_proto (some empty_cpu) m ≡ or_empty empty_cpu c
unfolding cpu_to_proto
cpu-back none m h =
    let got : none ≡ m = ground (arith, h) in
    ap (unless_nil cpu_of_proto (some empty_cpu)) (sym got)
cpu-back (some c) m h = processors-back c (each processor_to_proto c.processors) m refl h

unless_nil-map :
    {A B : Type 0}
    → (f : A → B) (g : B → A) → ((x : A) → g (f x) ≡ x)
    → (empty : A) (o : Option A) → unless_nil g (some empty) (Option.map f o) ≡ or_empty empty o
unless_nil-map f g e empty none = refl
unless_nil-map f g e empty (some x) = ap (λ y. some y) (e x)

attributes-back :
    (a : Gathered.AgentAttributes) (m : Message.AgentAttributes)
    → attributes_to_proto a ≡ some m
    → attributes_of_proto m ≡ filled a
unfolding attributes_to_proto attributes_of_proto
attributes-back a m h =
    let (cpu, c, h₁) = bind-some _ _ m h in
    let (block, b, h₂) = bind-some _ _ m h₁ in
    let (network, n, h₃) = bind-some _ _ m h₂ in
    let (pci, p, h₄) = bind-some _ _ m h₃ in
    let (gpu, g, h₅) = bind-some _ _ m h₄ in
    let got : assembled a cpu block network pci gpu ≡ m = ground (arith, h₅) in
    ap attributes_of_proto (sym got) ∙ (λ i. record {
      cpu = cpu-back a.cpu cpu c i;
      memory = unless_nil-map memory_to_proto memory_of_proto (λ x. refl) empty_memory a.memory i;
      block_devices = each-back block_to_proto block_of_proto (λ x. refl) a.block_devices block b i;
      network_interfaces =
          each-back network_to_proto network_of_proto (λ x. refl) a.network_interfaces network n i;
      pci_devices = each-back pci_to_proto pci_of_proto (λ x. refl) a.pci_devices pci p i;
      gpu_devices = each-back gpu_to_proto gpu_of_proto (λ x. refl) a.gpu_devices gpu g i;
      chassis =
          unless_nil-map chassis_to_proto chassis_of_proto (λ x. refl) empty_chassis a.chassis i;
      bios = unless_nil-map bios_to_proto bios_of_proto (λ x. refl) empty_bios a.bios i;
      baseboard =
          unless_nil-map baseboard_to_proto baseboard_of_proto (λ x. refl) empty_baseboard
            a.baseboard i;
      product =
          unless_nil-map product_to_proto product_of_proto (λ x. refl) empty_product a.product i;
    })

abbrev pub Filled : {A : Type 0} → List (Option A) → Type 0
Filled xs = All (λ x. x ≢ none) xs

each_total :
    {A B : Type 0}
    → (f : A → B) (xs : List (Option A)) → Filled xs
    → (ys : List B) × (each f xs ≡ some ys)
unfolding each push
each_total f [] h = ([], refl)
each_total f (none ∷ xs) h = absurd (h.0 refl)
each_total f (some x ∷ xs) h = let (ys, e) = each_total f xs h.1 in (f x ∷ ys, rw e refl)

abbrev pub FilledCpu : Option Gathered.Cpu → Type 0
FilledCpu none = Unit
FilledCpu (some c) = Filled c.processors

cpu_total :
    (c : Option Gathered.Cpu) → FilledCpu c → (m : Option Message.Cpu) × (cpu_to_proto c ≡ some m)
unfolding cpu_to_proto with_processors
cpu_total none h = (none, refl)
cpu_total (some c) h =
    let (ps, e) = each_total processor_to_proto c.processors h in
    (
      some (record {
        total_cores = c.total_cores;
        total_threads = c.total_threads;
        processors = ps;
      }),
      rw e refl,
    )

-- No element of a list is nil.
pub record HasNoNil (a : Gathered.AgentAttributes) : Type 0 where
  pub cpu : FilledCpu a.cpu
  pub block : Filled a.block_devices
  pub network : Filled a.network_interfaces
  pub pci : Filled a.pci_devices
  pub gpu : Filled a.gpu_devices

-- Attributes with no nil in a list are sent, and the service reads them as they were, with the parts
-- that are nil made empty.
pub convert-to_proto :
    (a : Gathered.AgentAttributes)
    → HasNoNil a
    → (m : Message.AgentAttributes) × (to_proto (some a) ≡ some (some m))
      × (convert (some m) ≡ some (filled a))
unfolding to_proto convert attributes_to_proto
convert-to_proto a h =
    let (cpu, c) = cpu_total a.cpu h.cpu in
    let (block, b) = each_total block_to_proto a.block_devices h.block in
    let (network, n) = each_total network_to_proto a.network_interfaces h.network in
    let (pci, p) = each_total pci_to_proto a.pci_devices h.pci in
    let (gpu, g) = each_total gpu_to_proto a.gpu_devices h.gpu in
    let m = assembled a cpu block network pci gpu in
    let sent : attributes_to_proto a ≡ some m = rw (attributes_to_proto, c, b, n, p, g) refl in
    (m, rw sent refl, ap (λ x. some x) (attributes-back a m sent))
