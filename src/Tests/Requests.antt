-- ===== src/Tests/Requests.antt =====
-- Requests for the web commands of the test server.
use levbdim.Base.{ℕ, ◌≡◌, refl, [], false, str_eq, codes, if◌then◌else◌, not, ◌&&◌, ◌||◌}
use levbdim.Buffer.{Bytes}
use levbdim.Fsm.Web.{Request, Functor, FsmWeb, not_set, add_command, handle_request}
use levbdim.Fsm.Requests.{is_listed, wrapped, handle_request-add_command}
use levbdim.Apps.Dummy.{Dummy, new_dummy, called, web_server}
use levbdim.Tests.Json.{json, json_laws}
open json use {get, as_string, null}

abbrev junk : ℕ → Bytes
junk n = []

abbrev server : FsmWeb json Dummy
server = web_server json junk (codes "s") (codes "pc") 45000

-- A request for a command that the server does not have.
abbrev request : Request
request key default = if str_eq key (codes "name") then codes "STATUS" else default

abbrev method : Functor json Dummy
method = called json junk (codes "ready")

named : str_eq (request (codes "name") not_set) not_set ≡ false
unfolding str_eq
named = refl

handle_request-add_command_example :
    (handle_request json Dummy
        (add_command json Dummy (codes "STATUS") method server)
        new_dummy
        request
        null
      ≡ (if str_eq (codes "STATUS") (request (codes "name") not_set)
            && not (is_listed json Dummy (codes "STATUS") server)
          then wrapped json Dummy (method new_dummy request) null
          else handle_request json Dummy server new_dummy request null))
    × (is_listed json Dummy
          (request (codes "name") not_set)
          (add_command json Dummy (codes "STATUS") method server)
        ≡ (str_eq (codes "STATUS") (request (codes "name") not_set)
            || is_listed json Dummy (request (codes "name") not_set) server))
    × (as_string (get (codes "status") (handle_request json Dummy server new_dummy request null).1)
        ≡ (if is_listed json Dummy (request (codes "name") not_set) server
            then codes "OK"
            else codes "Unknown Command"))
handle_request-add_command_example =
    handle_request-add_command json Dummy json_laws server (codes "STATUS") method new_dummy request
      null refl named
