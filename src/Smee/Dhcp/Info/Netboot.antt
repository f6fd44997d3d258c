-- ===== src/Smee/Dhcp/Info/Netboot.antt =====
-- Which clients are clients of the network boot.
use tinkerbell.Base.{
  String, Bool, true, false, not, Option, none, some, List, [], ◌∷◌, ◌++◌, ◌≡◌, ◌⊎◌, ◌↔◌, length,
  arith, refl, inl, inr, ap, sym, ◌∙◌,
}
use tinkerbell.Smee.Dhcp.{Bytes, MessageType, discover, request, Arch, Packet}
use tinkerbell.Smee.Dhcp.Info.{
  has_prefix, pxe_client, http_client, complaint, is_discover_or_request, is_set, text_or_empty,
  machine_complaint, is_other_class, is_netboot_client,
}

-- A DISCOVER or a REQUEST with the options 60, which begins with PXEClient or HTTPClient, 93 and 94, and
-- with an option 97 that is empty or has 17 bytes, the first of which is 0.
pub record IsNetboot (p : Packet) : Type 0 where
  pub asks : (p.message_type ≡ discover) ⊎ (p.message_type ≡ request)
  pub class_text : String
  pub classed : p.class_identifier ≡ some class_text
  pub of_class :
      (has_prefix class_text pxe_client ≡ true) ⊎ (has_prefix class_text http_client ≡ true)
  pub archs : List Arch
  pub has_archs : p.architectures ≡ some archs
  pub interfaced : p.has_network_interface ≡ true
  pub machine :
      (p.machine_identifier ≡ [])
      ⊎ ((bs : Bytes) × (p.machine_identifier ≡ 0 ∷ bs) × (length bs ≡ 16))

append-nil_left : (xs ys : List String) → xs ++ ys ≡ [] → (xs ≡ []) × (ys ≡ [])
append-nil_left [] ys h = (refl, h)
append-nil_left (x ∷ xs) ys h = absurd (ground (arith, h))

no_complaint : (b : Bool) (t : String) → complaint b t ≡ [] → b ≡ false
unfolding complaint
no_complaint true t h = absurd (ground (arith, h))
no_complaint false t h = refl

asks_lem : (m : MessageType) → is_discover_or_request m ≡ true → (m ≡ discover) ⊎ (m ≡ request)
unfolding is_discover_or_request
asks_lem m h = ground (arith, h)

machine_complaint-none :
    (bs : Bytes)
    → machine_complaint bs ≡ []
    → (bs ≡ []) ⊎ ((cs : Bytes) × (bs ≡ 0 ∷ cs) × (length cs ≡ 16))
unfolding machine_complaint complaint
machine_complaint-none [] h = inl refl
machine_complaint-none (b ∷ bs) h = inr (bs, ground (arith, h), ground (arith, h))

none-machine_complaint :
    (bs : Bytes)
    → (bs ≡ []) ⊎ ((cs : Bytes) × (bs ≡ 0 ∷ cs) × (length cs ≡ 16))
    → machine_complaint bs ≡ []
unfolding machine_complaint complaint
none-machine_complaint [] h = refl
none-machine_complaint (b ∷ bs) h = ground (arith, h)

is_set-some : (o : Option String) → is_set o ≡ true → (t : String) × (o ≡ some t)
unfolding is_set
is_set-some none h = absurd (ground (arith, h))
is_set-some (some t) h = (t, refl)

is_set-archs : (o : Option (List Arch)) → is_set o ≡ true → (t : List Arch) × (o ≡ some t)
unfolding is_set
is_set-archs none h = absurd (ground (arith, h))
is_set-archs (some t) h = (t, refl)

is_other_class-false :
    (t : String)
    → is_other_class t ≡ false
    → (has_prefix t pxe_client ≡ true) ⊎ (has_prefix t http_client ≡ true)
unfolding is_other_class
is_other_class-false t h = ground (arith, h)

false-is_other_class :
    (t : String)
    → (has_prefix t pxe_client ≡ true) ⊎ (has_prefix t http_client ≡ true)
    → is_other_class t ≡ false
unfolding is_other_class
false-is_other_class t h = ground (arith, h)

text_or_empty_lem : (o : Option String) (t : String) → o ≡ some t → text_or_empty o ≡ t
unfolding text_or_empty
text_or_empty_lem o t h = ap text_or_empty h

not_set : {A : Type 0} → (o : Option A) (a : A) → o ≡ some a → not (is_set o) ≡ false
unfolding is_set
not_set o a h = ap (λ x. not (is_set x)) h

is_netboot_client-IsNetboot : (p : Packet) → is_netboot_client p ≡ [] → IsNetboot p
unfolding is_netboot_client
is_netboot_client-IsNetboot p h =
    let (h₁, r₁) =
      append-nil_left (complaint (not (is_discover_or_request p.message_type)) _) _ h in
    let (h₂, r₂) = append-nil_left (complaint (not (is_set p.class_identifier)) _) _ r₁ in
    let (h₃, r₃) =
      append-nil_left (complaint (is_other_class (text_or_empty p.class_identifier)) _) _ r₂ in
    let (h₄, r₄) = append-nil_left (complaint (not (is_set p.architectures)) _) _ r₃ in
    let (h₅, h₆) = append-nil_left (complaint (not p.has_network_interface) _) _ r₄ in
    let (text, text_is) = is_set-some p.class_identifier (ground (arith, no_complaint _ _ h₂)) in
    let (archs, archs_are) = is_set-archs p.architectures (ground (arith, no_complaint _ _ h₄)) in
    let same : text_or_empty p.class_identifier ≡ text =
      text_or_empty_lem p.class_identifier text text_is in
    record {
      asks = asks_lem p.message_type (ground (arith, no_complaint _ _ h₁));
      class_text = text;
      classed = text_is;
      of_class = is_other_class-false text (ap is_other_class (sym same) ∙ no_complaint _ _ h₃);
      archs = archs;
      has_archs = archs_are;
      interfaced = ground (arith, no_complaint _ _ h₅);
      machine = machine_complaint-none p.machine_identifier h₆;
    }

complaint-false : (b : Bool) (t : String) → b ≡ false → complaint b t ≡ []
unfolding complaint
complaint-false b t h = ground (arith, h)

nil-append_left : (xs ys : List String) → xs ≡ [] → ys ≡ [] → xs ++ ys ≡ []
nil-append_left [] ys h k = k
nil-append_left (x ∷ xs) ys h k = absurd (ground (arith, h))

lem-asks :
    (m : MessageType) → (m ≡ discover) ⊎ (m ≡ request) → not (is_discover_or_request m) ≡ false
unfolding is_discover_or_request
lem-asks m (inl h) = ground (arith, h)
lem-asks m (inr h) = ground (arith, h)

IsNetboot-is_netboot_client : (p : Packet) → IsNetboot p → is_netboot_client p ≡ []
unfolding is_netboot_client
IsNetboot-is_netboot_client p n =
    nil-append_left _ _ (complaint-false _ _ (lem-asks p.message_type n.asks)) (
      nil-append_left _ _ (complaint-false _ _ (not_set p.class_identifier n.class_text n.classed))
        (nil-append_left _ _
          (complaint-false _ _ (
            ap is_other_class (text_or_empty_lem p.class_identifier n.class_text n.classed)
            ∙ false-is_other_class n.class_text n.of_class))
          (nil-append_left _ _ (complaint-false _ _ (not_set p.architectures n.archs n.has_archs)) (
            nil-append_left _ _ (complaint-false _ _ (ap not n.interfaced))
              (none-machine_complaint p.machine_identifier n.machine)))))

-- A packet is accepted as one of a client of the network boot exactly when it is a DISCOVER or a
-- REQUEST with an option 60 that begins with PXEClient or HTTPClient, with the options 93 and 94, and
-- with an option 97 that is empty or has 17 bytes of which the first is 0.
pub is_netboot_client_lem : (p : Packet) → (is_netboot_client p ≡ []) ↔ IsNetboot p
is_netboot_client_lem p = (is_netboot_client-IsNetboot p, IsNetboot-is_netboot_client p)
