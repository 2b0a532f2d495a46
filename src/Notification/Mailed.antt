-- ===== src/Notification/Mailed.antt =====
-- A confirmation over HTTP, from the one service to the mail of the other.
use software_engineering_sch.Base.{String, ◌≡◌}
use software_engineering_sch.Errors.{◌+++◌}
use software_engineering_sch.Json.{Bytes}
use software_engineering_sch.ApiTables.{ApiTables}
use software_engineering_sch.Db.{World, Mail}
use software_engineering_sch.Delivery.Service.{send_confirmation}
use software_engineering_sch.Notification.Web.{
  ConfirmationRequest, Exchange, accepted, trim_slashes, web_publisher,
}

abbrev pub confirmation : (base_url email repo token : String) → ConfirmationRequest
confirmation base_url email repo token = record {
  email = email;
  repo = repo;
  confirm_url = base_url +++ "/api/confirm/" +++ token;
}

abbrev pub confirmation_mail : ConfirmationRequest → Mail
confirmation_mail r = record {
  recipient = r.email;
  body =
      "Welcome! Please confirm your subscription to GitHub repository updates by clicking here: "
      +++ r.confirm_url;
}

-- What the publisher does with a confirmation: it sends this request, whatever the network answers,
-- and leaves its own world as it was.
abbrev pub Sends :
    (base_url url email repo token method path : String) → Bytes → World ApiTables → Type 0
Sends base_url url email repo token method path body w =
    (exchange : Exchange)
    → (web_publisher exchange base_url url).send_confirmation email repo token w
      ≡ (accepted (exchange method (trim_slashes url +++ path) body), w)
