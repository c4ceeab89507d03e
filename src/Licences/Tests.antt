-- ===== src/Licences/Tests.antt =====
-- Verdicts on two distributions.
use security_tool.Prelude.{
  ◌≡◌, refl, [], codes, lower, join, any, filter, has_sub, starts_with, or_text,
}
use security_tool.Licences.{
  Distribution, verdict_on, denied, lgpl_reviewed, licence_strings, search_word, after_word,
}

abbrev copyleft : Distribution
copyleft = record {
  name = codes "sqlthing";
  summary = [];
  license_expression = codes "GPL-3.0-only";
  license = [];
  classifiers = [];
}

abbrev lesser : Distribution
lesser = record copyleft { license_expression = codes "LGPL-3.0" }

copyleft_denied : verdict_on copyleft ≡ denied
unfolding verdict_on licence_strings search_word after_word any lower join or_text starts_with
    filter has_sub
copyleft_denied = refl

lesser_reviewed : verdict_on lesser ≡ lgpl_reviewed
unfolding verdict_on licence_strings search_word after_word any lower join or_text starts_with
    filter has_sub
lesser_reviewed = refl
