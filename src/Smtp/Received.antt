-- ===== src/Smtp/Received.antt =====
-- crates/camelmailer-core/src/received_header.rs: the `Received` header.
use camelmailer.Base.{ℕ, Bool, ◌++◌, if◌then◌else◌}
use camelmailer.Text.{Text, codes}
use camelmailer.Smtp.Env.{Crates}

pub data ReceiveMethod : Type 0 where
  smtp http : ReceiveMethod

unfoldable pub method_name : ReceiveMethod → Text
method_name smtp = codes "SMTP"
method_name http = codes "HTTP"

unfoldable pub generate : Crates → Bool → Text → Text → Text → ReceiveMethod → Text → ℕ → Text
unfolding method_name
generate crates privacy_mode helo resolved_hostname ip_address method our_hostname now =
    let header =
      codes "by "
      ++ (our_hostname
          ++ (codes " with " ++ (method_name method ++ (codes "; " ++ crates.rfc2822 now)))) in
    if privacy_mode
    then header
    else codes "from "
      ++ (helo
          ++ (codes " ("
              ++ (resolved_hostname ++ (codes " [" ++ (ip_address ++ (codes "]) " ++ header))))))
