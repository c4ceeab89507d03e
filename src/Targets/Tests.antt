-- ===== src/Targets/Tests.antt =====
-- A target that is verified by a DNS record, authorized and scanned.
use security_tool.Prelude.{
  ℕ, true, ◌≡◌, ◌≢◌, refl, List, [], ◌∷◌, some, none, Text, codes, Memᴰ, text_beq, any, strip,
  strip_left, strip_right,
}
use security_tool.Targets.{
  OwnershipVerificationMethod, dns_txt, Target, World, verify_ownership, verify_dns_txt, Call,
  challenge, verify, authorize, scan, handle, handle_all, create_target, create_ownership_challenge,
  run_ownership_verification, accept_authorization, create_scan,
}
use security_tool.Targets.Gate.{handle_all-gate}

abbrev proof_token : Text
proof_token = codes "sentinel-verify=42"

abbrev world : World
world = record {
  txt_records = λ n. some (codes "v=spf1" ∷ codes " sentinel-verify=42 " ∷ []);
  fetch = λ u. none;
  meta_content = λ b. none;
}

abbrev calls : List Call
calls =
    scan (codes "eve")
    ∷ challenge dns_txt proof_token
    ∷ verify world 5
    ∷ authorize true 6
    ∷ scan (codes "ann")
    ∷ []

abbrev shop : Target
shop = create_target 1 7 (codes "shop.test") (codes "Shop") true

scanned : (handle_all calls (record { target = shop; scans = [] })).scans ≡ codes "ann" ∷ []
unfolding handle_all handle create_target create_scan create_ownership_challenge
    run_ownership_verification accept_authorization verify_ownership verify_dns_txt any strip
    strip_left strip_right text_beq
scanned = refl

not_empty : (handle_all calls (record { target = shop; scans = [] })).scans ≢ []
not_empty e = cc (scanned, e)

handle_all-gate_example :
    ((m : OwnershipVerificationMethod) × (token : Text) × (w : World) × (now : ℕ) × Memᴰ
        (challenge m token)
        calls
      × Memᴰ (verify w now) calls
      × ((verify_ownership w m (codes "shop.test") token).verified ≡ true))
    × ((now : ℕ) × Memᴰ (authorize true now) calls)
handle_all-gate_example =
    handle_all-gate 1 7 (codes "shop.test") (codes "Shop") true calls not_empty
