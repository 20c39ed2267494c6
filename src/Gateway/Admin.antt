-- ===== src/Gateway/Admin.antt =====
-- The management server (gateway/src/gateway.cpp, with src/net): its message callback, which runs the
-- command and sends the text at once, on the loop's thread.
pub mod Wire
pub mod Sample
mod Tests
use lfgateway.Base.{Option, none, some, List, [], ◌∷◌, ◌++◌, ◌≡◌}
use lfgateway.Base.Text.{Bytes, codes}
use lfgateway.Base.Reach.{Steps}
use lfgateway.Net.Channel.{Revents}
use lfgateway.Net.Connection.{Read, Write, event}
use lfgateway.Net.Connection.Asked.{asked}
use lfgateway.Net.Acceptor.{Accept}
use lfgateway.Net.Serving.{Serving, serving, serve_accept, serve_input}
use lfgateway.Net.Serving.Open.{IsFree, IsNew}
use lfgateway.Mgmt.{World, MgmtEnv, Reply, on_message}
use lfgateway.Gateway.Flow.{Outgoing}

-- `onMgmtRequest`; the connection of a message is never null.
unfoldable pub on_mgmt_request : World → MgmtEnv → Bytes → Reply
on_mgmt_request w e buf = on_message w e buf

-- What the callback sends.
abbrev pub sent_text : Option Bytes → List Bytes
sent_text none = []
sent_text (some t) = t ∷ []

abbrev pub replies : World → MgmtEnv → Bytes → List Bytes
replies w e buf = sent_text (on_mgmt_request w e buf).text

-- The server, what the commands read and change, and what was sent, each text with its connection.
pub record Port : Type 0 where
  pub serving : Serving
  pub mgmt : World
  pub sent : List Outgoing

abbrev pub fresh : World → Port
fresh w = record { serving = serving (codes "MgmtServer"); mgmt = w; sent = [] }

-- The loop's thread accepts or handles an event of a connection, which has no message or one; an
-- exception of the callback ends the program, so no step has one; and what else has the gateway
-- changes it.
pub data Step (p : Port) : Port → Type 0 where
  accepts :
      (a : Accept)
      → IsFree a p.serving
      → IsNew a p.serving
      → Step p (record p { serving = (serve_accept a p.serving).0 })
  quiet :
      (e : MgmtEnv) (conn : Bytes) (v : Revents) (r : Read) (wr : Write)
      → asked (serve_input (replies p.mgmt e) conn (event v r wr) p.serving).1 ≡ []
      → Step p
          (record p { serving = (serve_input (replies p.mgmt e) conn (event v r wr) p.serving).0 })
  answers :
      (e : MgmtEnv) (conn buf text : Bytes) (v : Revents) (r : Read) (wr : Write)
      → asked (serve_input (replies p.mgmt e) conn (event v r wr) p.serving).1 ≡ buf ∷ []
      → (on_mgmt_request p.mgmt e buf).text ≡ some text
      → Step p (record p {
        serving = (serve_input (replies p.mgmt e) conn (event v r wr) p.serving).0;
        mgmt = (on_mgmt_request p.mgmt e buf).world;
        sent = p.sent ++ (conn, text) ∷ [];
      })
  elsewhere : (w : World) → Step p (record p { mgmt = w })

abbrev pub Reach : Port → Port → Type 0
Reach = Steps Step
