-- ===== src/Dmarc/Tests.antt =====
-- DNS records on small inputs.
use camelmailer.Base.{◌≡◌, refl, true, none, some, [], ◌∷◌}
use camelmailer.Text.{Text, codes, eq_ignore_ascii_case}
use camelmailer.Dmarc.{
  DmarcPolicy, parse_dmarc_record, spf_contains_mechanism, spf_with_mechanism, spf_all_qualifier,
  dkim_public_key_of_record, is_spf1_record,
}
use camelmailer.Dmarc.Merge.{spf_with_mechanism-contains, spf_with_mechanism-all_qualifier}

abbrev small_policy : DmarcPolicy
unfolding codes
small_policy = record {
  p = some (codes "reject");
  sp = none;
  rua = codes "mailto:a@b.de" ∷ [];
  pct = 100;
}

small_policy_parses :
    parse_dmarc_record (codes "v=DMARC1; p=Reject; sp=maybe; rua=mailto:a@b.de,; pct=250")
    ≡ some small_policy
unfolding parse_dmarc_record camelmailer.Text.trim_end camelmailer.Text.trim_end_where
    camelmailer.Text.trim_start camelmailer.Text.is_whitespace
small_policy_parses = refl

key_is_joined : dkim_public_key_of_record (codes "v=DKIM1; p=MI GB") ≡ some (codes "MIGB")
unfolding dkim_public_key_of_record camelmailer.Text.trim_end camelmailer.Text.trim_end_where
    camelmailer.Text.trim_start
key_is_joined = refl

merge_goes_before_all :
    spf_with_mechanism (codes "v=spf1  a ~all") (codes "include:x.de")
    ≡ codes "v=spf1 a include:x.de ~all"
unfolding spf_with_mechanism
merge_goes_before_all = refl

spf_with_mechanism-contains_include :
    spf_contains_mechanism
      (spf_with_mechanism (codes "v=spf1  a ~all") (codes "include:x.de"))
      (codes "include:x.de")
    ≡ true
unfolding is_spf1_record codes camelmailer.Dmarc.bare_term
spf_with_mechanism-contains_include =
    spf_with_mechanism-contains (codes "v=spf1  a ~all") (codes "include:x.de") refl (refl, refl)
      refl

spf_with_mechanism-all_qualifier_include :
    spf_all_qualifier (spf_with_mechanism (codes "v=spf1  a ~all") (codes "include:x.de"))
    ≡ spf_all_qualifier (codes "v=spf1  a ~all")
unfolding is_spf1_record codes camelmailer.Dmarc.qualified
spf_with_mechanism-all_qualifier_include =
    spf_with_mechanism-all_qualifier (codes "v=spf1  a ~all") (codes "include:x.de") refl
      (refl, refl) refl
