-- ===== src/Notification/Email.antt =====
-- The mails of the notification service (services/notification-service/internal/email/smtp.go). Sending
-- one is the call `send_mail` of an action; this is what it hands to the package smtp.
use software_engineering_sch.Base.{String, Option, some, none, ◌||◌, ◌==◌, if◌then◌else◌}
use software_engineering_sch.Errors.{◌+++◌}

pub record Config : Type 0 where
  pub smtp_host : String
  pub smtp_port : String
  pub smtp_email : String
  pub smtp_password : String

-- The arguments of `smtp.SendMail`, with the password of `smtp.PlainAuth` if there is one.
pub record Envelope : Type 0 where
  pub address : String
  pub password : Option String
  pub sender : String
  pub recipient : String
  pub text : String

unfoldable pub sender_address : Config → String
sender_address c = if c.smtp_email == "" then "subber@localhost" else c.smtp_email

-- `SMTPSender.Send`, up to the call
unfoldable pub mail_to : Config → (recipient body : String) → Envelope
unfolding sender_address
mail_to c recipient body = record {
  address = c.smtp_host +++ ":" +++ c.smtp_port;
  password = if c.smtp_email == "" || c.smtp_password == "" then none else some c.smtp_password;
  sender = sender_address c;
  recipient = recipient;
  text =
      "From: "
      +++ sender_address c
      +++ "\r\nTo: "
      +++ recipient
      +++ "\r\nSubject: Subber Notification\r\nMIME-Version: 1.0\r\nContent-Type: text/plain; charset=\"utf-8\"\r\n\r\n"
      +++ body;
}
