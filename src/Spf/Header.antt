-- ===== src/Spf/Header.antt =====
-- `received_spf_header` of crates/camelmailer-core/src/spf.rs.
use camelmailer.Base.{◌++◌, if◌then◌else◌, is_empty}
use camelmailer.Text.{Text, codes}
use camelmailer.Spf.{
  SpfResult, pass, fail, soft_fail, neutral, no_policy, temp_error, perm_error, Nets,
  UnsupportedKind, macro_term, exists_term, ptr_term,
}

unfoldable pub result_name : SpfResult → Text
unfolding codes
result_name pass = codes "pass"
result_name fail = codes "fail"
result_name soft_fail = codes "softfail"
result_name neutral = codes "neutral"
result_name no_policy = codes "none"
result_name temp_error = codes "temperror"
result_name perm_error = codes "permerror"

unfoldable pub comment : SpfResult → Text → Text → Text → Text
comment pass receiver from ip =
    receiver
    ++ (codes ": domain of "
        ++ (from ++ (codes " designates " ++ (ip ++ codes " as permitted sender"))))
comment fail receiver from ip =
    receiver
    ++ (codes ": domain of "
        ++ (from ++ (codes " does not designate " ++ (ip ++ codes " as permitted sender"))))
comment soft_fail receiver from ip =
    receiver
    ++ (codes ": domain of transitioning "
        ++ (from ++ (codes " does not designate " ++ (ip ++ codes " as permitted sender"))))
comment neutral receiver from ip =
    receiver
    ++ (codes ": " ++ (ip ++ (codes " is neither permitted nor denied by domain of " ++ from)))
comment no_policy receiver from ip =
    receiver ++ (codes ": " ++ (from ++ codes " does not publish an SPF policy"))
comment temp_error receiver from ip =
    receiver ++ (codes ": transient error resolving SPF for " ++ from)
comment perm_error receiver from ip =
    receiver ++ (codes ": permanent error evaluating SPF for " ++ from)

module _ {Ip Net : Type 0} (nets : Nets Ip Net) where
  unfoldable pub received_spf_header : SpfResult → Text → Text → Ip → Text → Text
  unfolding result_name comment
  received_spf_header result receiver envelope_from client_ip helo =
      let ip = nets.show client_ip in
      let header =
        result_name result
        ++ (codes " ("
            ++ (comment result receiver envelope_from ip
                ++ (codes ") client-ip="
                    ++ (ip ++ (codes "; envelope-from=<" ++ (envelope_from ++ codes ">;")))))) in
      if is_empty helo then header else header ++ (codes " helo=" ++ (helo ++ codes ";"))

unfoldable pub kind_name : UnsupportedKind → Text
unfolding codes
kind_name macro_term = codes "macro"
kind_name exists_term = codes "exists"
kind_name ptr_term = codes "ptr"
