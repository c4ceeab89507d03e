-- ===== src/Recon/Tests.antt =====
-- A domain with one subdomain that resolves and one that does not.
use security_tool.Prelude.{
  ℕ, zero, suc, contains, text_eq, false, ◌≡◌, ◌≤◌, refl, List, [], ◌∷◌, ◌++◌, none, some, Text,
  codes, ends_with, text_beq, length, lower, strip, strip_left, strip_right, All, if◌then◌else◌,
}
use security_tool.Auth.Oracle.{splitlines, lines_from}
use security_tool.Recon.Tools.{
  World, Document, http_error, text_lt, add, set_of, run_tool, tool_documents, documents, hosts_of,
  enumerate_subdomains,
}
use security_tool.Recon.{capped, run_recon}
use security_tool.Recon.Assets.{IsReported, run_recon-IsReported}

abbrev document : Text → Document
document host = record { text_at = λ k. some host; number_at = λ k. none; texts_at = λ k. none }

-- Only subfinder is installed; it prints a host a line.
abbrev world : World
world = record {
  which = λ name. text_beq name (codes "subfinder");
  process = λ name args stdin. some (codes "B.t" ++ 10 ∷ codes "c.t", [], 0);
  loads = λ line. some (document line);
  resolve = λ host. if ends_with host (codes "b.t") then codes "10.0.0.1" ∷ [] else [];
  fetch = λ url. http_error (codes "refused");
  title_of = λ content. none;
  token_hex = codes "00";
}

finds : enumerate_subdomains world (codes "t") ≡ codes "b.t" ∷ codes "c.t" ∷ []
unfolding enumerate_subdomains run_tool tool_documents documents hosts_of splitlines lines_from add
    text_lt strip strip_left strip_right lower text_beq
finds = refl

run_recon-IsReported_example :
    All (IsReported world (codes "b.t")) (run_recon world (codes "b.t")).assets
    × (length (run_recon world (codes "b.t")).assets ≤ 50)
run_recon-IsReported_example = run_recon-IsReported world (codes "b.t")

-- Sixty subdomains that sort before the root domain push it out.
abbrev many : ℕ → Text → List Text
many zero s = []
many (suc n) s = (b'a' ∷ s) ∷ many n (b'a' ∷ s)

root_is_cut :
    contains (capped (add (codes "shop.t") (set_of (many 60 [])))) (codes "shop.t") ≡ false
unfolding capped add set_of text_lt contains text_beq
root_is_cut = refl
