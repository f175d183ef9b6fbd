-- ===== src/Discovery/Model.antt =====
-- isETModel.
use go_goodwe.Base.{List, [], ◌∷◌, String, Bool, false, ◌||◌}
use go_goodwe.Base.Text.{Text, codes, contains}

unfoldable pub tags : List String
tags =
    "ETU" ∷ "ETL" ∷ "ETR" ∷ "BHN" ∷ "EHU" ∷ "BHU" ∷ "EHR" ∷ "BTU" ∷ "ESN" ∷ "EBN" ∷ "EMN" ∷ "SPN"
    ∷ "ERN" ∷ "ESC" ∷ "HLB" ∷ "HMB" ∷ "HBB" ∷ "EOA" ∷ "ETT" ∷ "HTA" ∷ "HUB" ∷ "AEB" ∷ "SPB" ∷ "CUB"
    ∷ "EUB" ∷ "HEB" ∷ "ERB" ∷ "BTT" ∷ "ETF" ∷ "ARB" ∷ "URB" ∷ "EBR" ∷ "NAH" ∷ "AES" ∷ "HHI" ∷ "ABP"
    ∷ "EHB" ∷ "HSB" ∷ "HUA" ∷ "CUA" ∷ "ETC" ∷ "BTC" ∷ "BTN" ∷ "KET" ∷ "KEU" ∷ []

unfoldable pub has_tag : Text → List String → Bool
has_tag serial [] = false
has_tag serial (tag ∷ rest) = contains serial (codes tag) || has_tag serial rest

unfoldable pub is_et_model : Text → Bool
unfolding tags has_tag
is_et_model serial = has_tag serial tags
