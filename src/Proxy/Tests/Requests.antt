-- ===== src/Proxy/Tests/Requests.antt =====
-- Requests for one share that asks for a password.
use htmlradar.Common.{
  ◌≡◌, ◌↔◌, refl, Text, codes, none, some, [], ◌∷◌, ◌++◌, true, false, split, if◌then◌else◌,
  to_lower, same, trim, trim_start, includes,
}
use htmlradar.Common.Decimal.{to_dec, parse_int}
use htmlradar.Proxy.Auth.{
  hmac, hmac_bytes, base64url_encode, auth_message, latest, cookie, constant_time_equal,
  verify_auth_cookie, issue_auth_cookie, is_tracking_opted_out, verify_owner_preview_token,
  owner_doc_message, verify_owner_doc_preview_token, issue_print_grant, print_cookie,
  read_print_cookie, new_print_secret, hmac_hex, to_hex, print_message,
}
use htmlradar.Proxy.World.{
  Env, Share, Document, Attachment, get, https, Request, World, got, ok, free, Served, Wrapper,
  served, wrapper, file, raw_document, replied, log_download,
}
use htmlradar.Proxy.Hosts.{
  HostKind, apex, handle, is_local, strip_suffix, handle_kind, is_handle_label, has_double_hyphen,
  resolve_host, enforce_stored_host, is_apex_host, is_legacy_host, share_host_of, wrapper_enabled,
  comma_list, enforce_apex, handle_links_enabled,
}
use htmlradar.Proxy.Hosts.Stored.{enforce_stored_host_iff, MayServe, resolve_host_sound, IsResolved}
use htmlradar.Proxy.Routes.{route_of}
use htmlradar.Proxy.Gates.{choice_of}
use htmlradar.Proxy.Handler.{
  handle_request, moved, host_paths, by_route, share_route, stored_host, share_stages,
  opt_out_stage, side_routes, is_disabled, is_owner_preview, disabled_gate, submissions,
  password_gate, email_gate, wrapper_stage, serve_document, download_route, preview_route,
  is_expired, open_document,
}
use htmlradar.Proxy.Handler.Replies.{IsServed, IsWrapped, IsDownload, IsPreview}
use htmlradar.Proxy.Handler.Answers.{
  handle_request-served, handle_request-wrapper, handle_request-file, handle_request-raw_document,
}
use htmlradar.Proxy.Tests.{toy}
use htmlradar.Proxy.Tests.Tokens.{deck, key}

abbrev pub env : Env
env = record {
  session_secret = key;
  share_host = none;
  legacy_hosts = none;
  trust_wrapper = none;
  trust_handles = some (codes "*");
  git_sha = none;
}

abbrev pub share : Share
share = record {
  id = codes "s";
  document_id = codes "d";
  owner_id = codes "o";
  slug = deck;
  require_email = false;
  require_password = true;
  allowed_email_domains = none;
  allowed_emails = none;
  lock_deck = false;
  expires_at = none;
  revoked_at = none;
  host_handle = none;
  custom_domain_id = none;
  custom_domain_state = none;
  custom_domain_owner_id = none;
  owner_tier = none;
}

abbrev document : Document
document = record { id = codes "d"; deleted_at = none; r2_key = none; source_url = none }

abbrev item : Attachment
item = record {
  id = codes "12345678";
  document_id = codes "d";
  filename = codes "a.pdf";
  mime_type = codes "x";
  size_bytes = 4;
  r2_key = codes "r";
}

abbrev pub world : World
world = record {
  platform = toy;
  now_ms = 60000;
  random = [];
  get_custom_domain_by_hostname = λ h. got none;
  get_share_by_slug = λ slug. if same slug deck then got (some share) else got none;
  get_document = λ id. got (some document);
  get_attachment = λ id. some item;
  list_attachments = λ id. item ∷ [];
  has_html = λ doc. true;
  has_object = λ key. true;
  verify_share_password = λ slug password. ok;
  report_verdict = λ slug. ok;
}

abbrev auth_header : Text
auth_header =
    (issue_auth_cookie toy deck key 5).name ++ b'=' ∷ (issue_auth_cookie toy deck key 5).value

abbrev asks : Text → Request
asks path = record {
  method = get;
  url = record {
    protocol = https;
    hostname = codes "htmlradar.page";
    pathname = path;
    query = λ name. none;
  };
  cookie = some auth_header;
  sec_fetch_dest = none;
  connecting_ip = none;
  form = none;
}

abbrev page : Served
page = record {
  share = share;
  document = document;
  tier = free;
  framed = false;
  tracking_enabled = true;
  email = none;
  attachments = item ∷ [];
}

abbrev wrapped_env : Env
wrapped_env = record env { trust_wrapper = some (codes "*") }

abbrev framed : Wrapper
framed = record {
  slug = deck;
  print_grant = some (issue_print_grant toy deck (codes "htmlradar.page") [] key 60);
  set_cookie = some (print_cookie []);
}

abbrev document_token : Text
document_token =
    codes "12345678"
    ++ b'.' ∷ (to_dec 99 ++ b'.' ∷ hmac toy (owner_doc_message (codes "12345678") 99) key)

abbrev asks_preview : Request
asks_preview = record {
  method = get;
  url = record {
    protocol = https;
    hostname = codes "htmlradar.page";
    pathname = codes "/r/_doc/12345678";
    query = λ name. if same name (codes "owner_doc_preview") then some document_token else none;
  };
  cookie = none;
  sec_fetch_dest = none;
  connecting_ip = none;
  form = none;
}

runs :
    (handle_request world env (asks (codes "/r/q3"))
      ≡ replied (record { response = served page; effects = [] }))
    × (handle_request world wrapped_env (asks (codes "/r/q3"))
        ≡ replied (record { response = wrapper framed; effects = [] }))
    × (handle_request world env (asks (codes "/r/q3/m/12345678"))
        ≡ replied (record {
          response = file item;
          effects = log_download (codes "12345678") (codes "s") none ∷ [];
        }))
    × (handle_request world env asks_preview
        ≡ replied (record { response = raw_document document; effects = [] }))
unfolding handle_request moved host_paths by_route is_legacy_host includes split to_lower trim same
    share_host_of is_local comma_list resolve_host is_apex_host route_of share_route wrapper_enabled
    stored_host enforce_stored_host enforce_apex handle_links_enabled share_stages opt_out_stage
    side_routes is_owner_preview verify_owner_preview_token is_disabled is_expired disabled_gate
    submissions password_gate email_gate wrapper_stage serve_document open_document
    verify_auth_cookie cookie latest trim_start parse_int to_dec constant_time_equal hmac hmac_bytes
    base64url_encode auth_message issue_auth_cookie is_tracking_opted_out choice_of
    read_print_cookie new_print_secret issue_print_grant hmac_hex to_hex print_message
    download_route preview_route verify_owner_doc_preview_token owner_doc_message
runs = (refl, refl, refl, refl)

handle_request-served_example :
    (host : HostKind) × (resolve_host world env (codes "htmlradar.page") ≡ got host)
    × IsServed world env (asks (codes "/r/q3")) host page
handle_request-served_example =
    handle_request-served world env (asks (codes "/r/q3")) _ page runs.0 refl

handle_request-wrapper_example :
    (host : HostKind) × (resolve_host world wrapped_env (codes "htmlradar.page") ≡ got host)
    × IsWrapped world wrapped_env (asks (codes "/r/q3")) host framed
handle_request-wrapper_example =
    handle_request-wrapper world wrapped_env (asks (codes "/r/q3")) _ framed runs.1 refl

handle_request-file_example :
    (host : HostKind) × (resolve_host world env (codes "htmlradar.page") ≡ got host)
    × IsDownload world env (asks (codes "/r/q3/m/12345678")) host item
handle_request-file_example =
    handle_request-file world env (asks (codes "/r/q3/m/12345678")) _ item runs.2 refl

handle_request-raw_document_example :
    (host : HostKind) × (resolve_host world env (codes "htmlradar.page") ≡ got host)
    × IsPreview world env asks_preview host document
handle_request-raw_document_example =
    handle_request-raw_document world env asks_preview _ document runs.3 refl

enforce_stored_host_iff_example :
    (enforce_stored_host apex share (asks []).url get env ≡ none) ↔ MayServe env apex share
enforce_stored_host_iff_example = enforce_stored_host_iff env apex share (asks []).url get

acme_resolved : resolve_host world env (codes "Acme.htmlradar.page") ≡ got (handle (codes "acme"))
unfolding resolve_host is_apex_host is_legacy_host share_host_of is_local comma_list includes split
    to_lower trim same strip_suffix handle_kind is_handle_label has_double_hyphen
acme_resolved = refl

resolve_host_sound_example :
    IsResolved world env (codes "acme.htmlradar.page") (handle (codes "acme"))
unfolding to_lower
resolve_host_sound_example =
    resolve_host_sound world env (codes "Acme.htmlradar.page") (handle (codes "acme")) acme_resolved
