-- ===== src/Desktop/Vault/Secrets.antt =====
-- The secrets of a vault after they were changed, and how much a vault holds.
use dot_terminal.Prelude.{
  ◌+◌, ◌≡◌, ap, ◌∙◌, none, some, length, if◌then◌else◌, list_eq, Text, text, ok, arith,
  length-append,
}
use dot_terminal.Desktop.Table.{get, insert, remove, get-insert, get-remove}
use dot_terminal.Desktop.Vault.{
  Library, Vault, Contents, Io, Details, update, logged, put, delete, load,
}
use dot_terminal.Desktop.Vault.Saved.{Sound, HasNonce, load-Holds}
use dot_terminal.Desktop.Vault.Logged.{changed_saved}

module _ {V K : Type 0} (l : Library V K) where
  put_changed :
      (io : Io) (name value : Text) (v : Vault V K) {v' : Vault V K}
      → put l io name value v ≡ (ok tt, v')
      → update l io (logged l io (text "stored") (Details.secret name) (insert name value)) v
        ≡ (ok tt, v')
  unfolding put
  put_changed io name value v e = ground arith

  -- After a secret was stored, by a cipher and a JSON codec that give back what they were given,
  -- loading the file under the key gives the contents in memory, which have one event more, the new
  -- value under its name and every other secret as it was.
  pub put_saved :
      (io : Io) (name value : Text) (v : Vault V K) {v' : Vault V K}
      → Sound l v'.key
      → HasNonce io
      → put l io name value v ≡ (ok tt, v')
      → (load l v'.key v'.file ≡ ok v'.contents)
        × (length v'.contents.audit ≡ length v.contents.audit + 1)
        × ((j : Text)
            → get j v'.contents.secrets
              ≡ (if list_eq name j then some value else get j v.contents.secrets))
  put_saved io name value v {v'} sound twelve e =
      let (at, now, contents, holds) =
        changed_saved l io (text "stored") (Details.secret name) (insert name value) v
          (put_changed io name value v e) in
      (
        load-Holds l io v'.key v'.file v'.contents sound twelve holds,
        ap (λ (c : Contents V). length c.audit) contents ∙ length-append v.contents.audit _,
        λ j.
            ap (λ (c : Contents V). get j c.secrets) contents
            ∙ get-insert name j value v.contents.secrets,
      )

  -- After a secret was deleted, loading the file under the key gives the contents in memory, without it and
  -- with every other secret as it was.
  pub delete_saved :
      (io : Io) (name : Text) (v : Vault V K) {v' : Vault V K}
      → Sound l v'.key
      → HasNonce io
      → delete l io name v ≡ (ok tt, v')
      → (load l v'.key v'.file ≡ ok v'.contents)
        × (length v'.contents.audit ≡ length v.contents.audit + 1)
        × ((j : Text)
            → get j v'.contents.secrets
              ≡ (if list_eq name j then none else get j v.contents.secrets))
  unfolding delete
  delete_saved io name v {v'} sound twelve e =
      let (at, now, contents, holds) =
        changed_saved l io (text "deleted") (Details.secret name) (remove name) v e in
      (
        load-Holds l io v'.key v'.file v'.contents sound twelve holds,
        ap (λ (c : Contents V). length c.audit) contents ∙ length-append v.contents.audit _,
        λ j.
            ap (λ (c : Contents V). get j c.secrets) contents
            ∙ get-remove name j v.contents.secrets,
      )
