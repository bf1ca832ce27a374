-- ===== src/Replication/Suffix.antt =====
-- How the suffix of an object's name, worker/replication.py, tells its layout.
use mathlib.Core.List.{reverse, reverse-append, append_assoc}
use pfsense_backups.Prelude.{◌≡◌, true, false, ◌++◌}
use pfsense_backups.Store.{Text}
use pfsense_backups.Replication.{
  ReplicationConfig, codes, starts_with, ends_with, strip_suffix, xml, enc, double, object_key,
}

-- The tail of a name decides `endswith` for any suffix that is not longer.
ends_with-append :
    (suffix front tail : Text)
    → ends_with suffix (front ++ tail)
      ≡ starts_with (reverse suffix) (reverse tail ++ reverse front)
unfolding ends_with
ends_with-append suffix front tail = rw (reverse-append front tail)

-- The name without its layout.
unfoldable pub stem : ReplicationConfig → Text → Text → Text
unfolding strip_suffix
stem cfg instance_name filename =
    cfg.base_path
    ++ (codes "/"
        ++ (instance_name ++ (codes "/" ++ strip_suffix xml (strip_suffix (codes ".gz") filename))))

pub object_key-stem :
    (cfg : ReplicationConfig) (instance_name filename suffix : Text)
    → object_key cfg instance_name filename suffix ≡ stem cfg instance_name filename ++ suffix
unfolding object_key stem
object_key-stem cfg instance_name filename suffix = simp append_assoc

pub double-double : (front : Text) → ends_with double (front ++ double) ≡ true
double-double front = rw (ends_with-append double front double)

pub enc-enc : (front : Text) → ends_with enc (front ++ enc) ≡ true
enc-enc front = rw (ends_with-append enc front enc)

pub double-xml : (front : Text) → ends_with double (front ++ xml) ≡ false
double-xml front = rw (ends_with-append double front xml)

pub enc-xml : (front : Text) → ends_with enc (front ++ xml) ≡ false
enc-xml front = rw (ends_with-append enc front xml)

-- A name of one layer looks like one of two exactly if its stem ends in `.2x`.
pub double-enc : (front : Text) → ends_with double (front ++ enc) ≡ ends_with (codes ".2x") front
unfolding ends_with
double-enc front = rw (reverse-append front enc)
