-- ===== src/Http/Client.antt =====
-- The HTTP requests that the program makes, and the clients that it makes them with (the interfaces
-- `Doer` of http/hashbody, service/dmhook and push/nanopush). net/http is behind them.
use nanomdm.Common.{ℕ, String}
use nanomdm.Common.Fault.{Result}
use nanomdm.Common.Exec.{Exec}
use nanomdm.Common.GoMap.{GoMap}

-- http.Request, as the program makes one; `body` is what reading it gives
pub record ClientRequest : Type 0 where
  pub method : String
  pub url : String
  pub headers : GoMap String
  pub body : Result String

-- http.Response; a header of several values has an entry for each
pub record ClientResponse : Type 0 where
  pub status_code : ℕ
  pub status : String
  pub headers : GoMap String
  pub body : Result String

abbrev pub Doer : Type 0 → Type 0
Doer S = ClientRequest → Exec S ClientResponse
