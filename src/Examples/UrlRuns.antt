-- ===== src/Examples/UrlRuns.antt =====
-- app/services/frontier.py: the canonical form of one URL.
use clusy_crawler.Base.{◌≡◌, refl, codes}
use clusy_crawler.Url.Split.{lower_all}
use clusy_crawler.Url.Segments.{remove_dot_segments}
use clusy_crawler.Url.Canonical.{accept, refuse, unsupported_scheme, canonicalize_url}
use clusy_crawler.Url.Dots.{HasNoDots, remove_dot_segments-HasNoDots}
use clusy_crawler.Examples.FrontierRuns.{ascii}

remove_dot_segments-dots : remove_dot_segments (codes "/a/./b//../c/..") ≡ codes "/a/b/"
unfolding remove_dot_segments
remove_dot_segments-dots = refl

canonicalize_url-port :
    canonicalize_url ascii 100 (codes "HTTP://A.b:80/%7ex/../y?q#f")
    ≡ accept (codes "http://a.b/y?q")
unfolding canonicalize_url lower_all
canonicalize_url-port = refl

canonicalize_url-ftp : canonicalize_url ascii 100 (codes "ftp://a.b/") ≡ refuse unsupported_scheme
unfolding canonicalize_url
canonicalize_url-ftp = refl

remove_dot_segments-HasNoDots_example : HasNoDots (remove_dot_segments (codes "/a/./b//../c/.."))
remove_dot_segments-HasNoDots_example = remove_dot_segments-HasNoDots (codes "/a/./b//../c/..")
