-- ===== src/Login/Steps.antt =====
-- What the handler of a login packet comes to, when it reads without leaving its arrays.
use thirty.Prelude.{arith, ℕ, ◌≡◌, Bool, some, List, get_elem?, set, ◌==◌}
use thirty.Prelude.Options.{>>=-eq-some}
use mathlib.Core.Option.{some-injective}
use thirty.Buffer.{Buffer}
use thirty.Buffer.McStr.{read_mcstr, c_string}
use thirty.Config.Settings.{ServerConfig}
use thirty.Server.{Client, disconnect}
use thirty.Login.{Site, Login, admit, versioned, read_version, read_key, read_unused, on_ident}

-- The login ends with the checks of some name and key, for the client with its new version.
pub record Checked (site : Site) (i : ℕ) (clients : List Client) (r : Login) : Type 0 where
  pub before : Client
  pub client : Client
  pub name : List ℕ
  pub key : List ℕ
  pub cpe : Bool
  pub in_buffer : Buffer
  pub found : get_elem? clients i ≡ some before
  pub same_name : client.name ≡ before.name
  pub login : admit site i client name key cpe in_buffer (set clients i client) ≡ r

pub name-versioned :
    (cfg : ServerConfig) (v n : ℕ) (c : Client) → (versioned cfg v n c).name ≡ c.name
unfolding versioned disconnect
name-versioned cfg v n c = ground arith

pub on_ident-Checked :
    (site : Site) (old_name old_key : List ℕ) (i : ℕ) (clients : List Client) (b : Buffer)
    (r : Login)
    → on_ident site old_name old_key i clients b ≡ some r
    → Checked site i clients r
unfolding on_ident
on_ident-Checked site old_name old_key i clients b r e =
    let (c, found, e1) = >>=-eq-some (get_elem? clients i) _ e in
    let (n, read1, e2) =
      >>=-eq-some (read_mcstr old_name (read_version c.protocol_version b).1) _ e1 in
    let (k, read2, e3) =
      >>=-eq-some (read_key (read_version c.protocol_version b).0.1 old_key n.1) _ e2 in
    let rv = read_version c.protocol_version b in
    let ru = read_unused rv.0.1 k.1 in
    record {
      before = c;
      client = versioned site.config rv.0.0 rv.0.1 c;
      name = c_string n.0;
      key = c_string k.0;
      cpe = ru.0 == 0x42;
      in_buffer = ru.1;
      found = found;
      same_name = name-versioned site.config rv.0.0 rv.0.1 c;
      login = some-injective _ _ e3;
    }
