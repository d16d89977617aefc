-- ===== src/Gateway/Client/Link.antt =====
-- The client of LetDD/tcp/client.go connected to LetDB: what is sent is read, decoded and handled as by
-- LetDB/src/let.c, and the text of the response is what arrives, unless it is lost on the way.
use let_dx.Base.{
  ℕ, ◌≡◌, sym, ap, ◌∙◌, Bool, true, false, Option, none, some, List, [], ◌∷◌, append-nil,
}
use let_dx.Result.{Result}
use let_dx.Network.Response.{Response}
use let_dx.Network.Response.Encoder.Reply.{response_text}
use let_dx.Network.Server.{client_read}
use let_dx.Network.Server.Read.{delivers}
use let_dx.App.{Let, RequestDevice, let_request}
use let_dx.App.Machine.{handle}
use let_dx.App.Machine.Session.{reply}
use let_dx.Gateway.Request.{TcpRequest, encode}
use let_dx.Gateway.Request.Understood.{meant, TcpFits, client_read-encode}
use let_dx.Gateway.Client.{Wire}

-- The database, the text that is on its way to the client, and which of the next texts are lost.
pub record Link : Type 0 where
  pub database : Let
  pub text : List ℕ
  pub losses : List Bool

abbrev pub handled : Link → Result Response × Let → Link
handled s answer = record s { database = answer.1; text = response_text (reply answer.0) }

abbrev pub arrival : Link → List Bool → Option (List ℕ) × Link
arrival s [] = (some s.text, s)
arrival s (true ∷ losses) = (none, record s { losses = losses })
arrival s (false ∷ losses) = (some s.text, record s { losses = losses })

-- A connection to a server on which nothing fails but the way of the responses, with what the context
-- answers.
abbrev pub link : Bool → RequestDevice → Wire Link
link expired dev = record {
  dial = λ s. (true, s);
  send = λ bytes s. (true, handled s (handle dev s.database (client_read (delivers bytes))));
  receive = λ s. arrival s s.losses;
  hang_up = λ s. s;
  done = λ s. (expired, s);
  trial = λ s. (record { done = false; fires = true }, s);
}

pub link-send :
    (expired : Bool) (dev : RequestDevice) (s : Link) (r : TcpRequest)
    → TcpFits r
    → (link expired dev).send (encode r) s
      ≡ (true, handled s (let_request dev s.database (meant r)))
unfolding handle
link-send expired dev s r h =
    ap (λ t. (true, handled s (handle dev s.database (client_read (delivers t)))))
      (sym (append-nil (encode r)))
    ∙ ap (λ m. (true, handled s (handle dev s.database m))) (client_read-encode r [] h)
