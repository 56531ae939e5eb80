-- ===== src/Dmarc/Policy.antt =====
-- A parsed DMARC policy holds only values of the standard.
use camelmailer.Base.{
  ℕ, ◌≤◌, ◌≡◌, true, Option, none, some, List, [], ◌∷◌, if_both, map, OnSome, arith, OnSome_eq,
  ◌==◌,
}
use camelmailer.Text.{Text, codes, to_ascii_lowercase, split_where, split_once, trim, text_eq}
use camelmailer.Spf.Term.{parse_u8}
use camelmailer.Dmarc.{
  DmarcPolicy, is_policy, set_tag, tag_of, sampled, read_tags, is_dmarc_record, parse_dmarc_record,
}

pub record IsValid (policy : DmarcPolicy) : Type 0 where
  pub p_valid : OnSome (λ v. is_policy v ≡ true) policy.p
  pub sp_valid : OnSome (λ v. is_policy v ≡ true) policy.sp
  pub pct_valid : policy.pct ≤ 100

sampled-IsValid :
    (o : Option ℕ) (policy : DmarcPolicy) → IsValid policy → IsValid (sampled o policy)
unfolding sampled
sampled-IsValid none policy v = v
sampled-IsValid (some pct) policy v = record {
  p_valid = v.p_valid;
  sp_valid = v.sp_valid;
  pct_valid = ground arith;
}

set_tag-IsValid :
    (name value : Text) (policy : DmarcPolicy)
    → IsValid policy
    → IsValid (set_tag name value policy)
unfolding set_tag
set_tag-IsValid name value policy v =
    if_both IsValid (text_eq name (codes "p"))
      (λ _.
        if_both IsValid (is_policy (map to_ascii_lowercase value))
          (λ h. record { p_valid = h; sp_valid = v.sp_valid; pct_valid = v.pct_valid }) (λ _. v))
      (λ _.
        if_both IsValid (text_eq name (codes "sp"))
          (λ _.
            if_both IsValid (is_policy (map to_ascii_lowercase value))
              (λ h. record { p_valid = v.p_valid; sp_valid = h; pct_valid = v.pct_valid }) (λ _. v))
          (λ _.
            if_both IsValid (text_eq name (codes "rua"))
              (λ _. record { p_valid = v.p_valid; sp_valid = v.sp_valid; pct_valid = v.pct_valid })
              (λ _.
                if_both IsValid (text_eq name (codes "pct"))
                  (λ _. sampled-IsValid (parse_u8 value) policy v) (λ _. v))))

read_tags-IsValid :
    (tags : List Text) (policy : DmarcPolicy) → IsValid policy → IsValid (read_tags tags policy)
unfolding read_tags
read_tags-IsValid [] policy v = v
read_tags-IsValid (tag ∷ tags) policy v =
    read_tags-IsValid tags (tag_of (split_once b'=' tag) policy) (tagged (split_once b'=' tag))
  where
    tagged : (o : Option (Text × Text)) → IsValid (tag_of o policy)
    tagged none = v
    tagged (some (name, value)) =
        set_tag-IsValid (map to_ascii_lowercase (trim name)) (trim value) policy v

-- The policies of a parsed record are none, quarantine or reject, and its percentage is at most 100,
-- whatever the record says.
pub parse_dmarc_record-IsValid :
    (txt : Text) (policy : DmarcPolicy) → parse_dmarc_record txt ≡ some policy → IsValid policy
unfolding parse_dmarc_record
parse_dmarc_record-IsValid txt policy e =
    OnSome_eq IsValid
      (if_both (OnSome IsValid) (is_dmarc_record txt)
        (λ _.
          read_tags-IsValid (split_where (λ c. c == b';') txt)
            (record { p = none; sp = none; rua = []; pct = 100 })
            (record { p_valid = tt; sp_valid = tt; pct_valid = omega arith }))
        (λ _. tt))
      e
