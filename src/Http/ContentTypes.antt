-- ===== src/Http/ContentTypes.antt =====
-- The content types by a file's extension: http_content_type_map in http/http_conn.h.
use conv_event.Base.{List, [], ◌∷◌, Bytes, codes}

unfoldable pub http_content_type_map : List (Bytes × Bytes)
http_content_type_map =
    (codes "html", codes "text/html")
    ∷ (codes "htm", codes "text/html")
    ∷ (codes "shtml", codes "text/html")
    ∷ (codes "css", codes "text/css")
    ∷ (codes "xml", codes "text/xml")
    ∷ (codes "gif", codes "image/gif")
    ∷ (codes "jpeg", codes "image/jpeg")
    ∷ (codes "jpg", codes "image/jpeg")
    ∷ (codes "js", codes "application/javascript")
    ∷ (codes "atom", codes "application/atom+xml")
    ∷ (codes "rss", codes "application/rss+xml")
    ∷ (codes "mml", codes "text/mathml")
    ∷ (codes "txt", codes "text/plain")
    ∷ (codes "jad", codes "text/vnd.sun.j2me.app-descriptor")
    ∷ (codes "wml", codes "text/vnd.wap.wml")
    ∷ (codes "htc", codes "text/x-component")
    ∷ (codes "png", codes "image/png")
    ∷ (codes "tif", codes "image/tiff")
    ∷ (codes "tiff", codes "image/tiff")
    ∷ (codes "wbmp", codes "image/vnd.wap.wbmp")
    ∷ (codes "ico", codes "image/x-icon")
    ∷ (codes "jng", codes "image/x-jng")
    ∷ (codes "bmp", codes "image/x-ms-bmp")
    ∷ (codes "svg", codes "image/svg+xml")
    ∷ (codes "svgz", codes "image/svg+xml")
    ∷ (codes "webp", codes "image/webp")
    ∷ (codes "woff", codes "application/font-woff")
    ∷ (codes "woff2", codes "application/font-woff")
    ∷ (codes "jar", codes "application/java-archive")
    ∷ (codes "war", codes "application/java-archive")
    ∷ (codes "ear", codes "application/java-archive")
    ∷ (codes "json", codes "application/json")
    ∷ (codes "hqx", codes "application/mac-binhex40")
    ∷ (codes "doc", codes "application/msword")
    ∷ (codes "pdf", codes "application/pdf")
    ∷ (codes "ps", codes "application/postscript")
    ∷ (codes "eps", codes "application/postscript")
    ∷ (codes "ai", codes "application/postscript")
    ∷ (codes "rtf", codes "application/rtf")
    ∷ (codes "m3u8", codes "application/vnd.apple.mpegurl")
    ∷ (codes "kml", codes "application/vnd.google-earth.kml+xml")
    ∷ (codes "kmz", codes "application/vnd.google-earth.kmz")
    ∷ (codes "xls", codes "application/vnd.ms-excel")
    ∷ (codes "eot", codes "application/vnd.ms-fontobject")
    ∷ (codes "ppt", codes "application/vnd.ms-powerpoint")
    ∷ (codes "odg", codes "application/vnd.oasis.opendocument.graphics")
    ∷ (codes "odp", codes "application/vnd.oasis.opendocument.presentation")
    ∷ (codes "ods", codes "application/vnd.oasis.opendocument.spreadsheet")
    ∷ (codes "odt", codes "application/vnd.oasis.opendocument.text")
    ∷ (
      codes "pptx",
      codes "application/vnd.openxmlformats-officedocument.presentationml.presentation",
    )
    ∷ (codes "xlsx", codes "application/vnd.openxmlformats-officedocument.spreadsheetml.sheet")
    ∷ (
      codes "docx",
      codes "application/vnd.openxmlformats-officedocument.wordprocessingml.document",
    )
    ∷ (codes "wmlc", codes "application/vnd.wap.wmlc")
    ∷ (codes "7z", codes "application/x-7z-compressed")
    ∷ (codes "cco", codes "application/x-cocoa")
    ∷ (codes "jardiff", codes "application/x-java-archive-diff")
    ∷ (codes "jnlp", codes "application/x-java-jnlp-file")
    ∷ (codes "run", codes "application/x-makeself")
    ∷ (codes "pl", codes "application/x-perl")
    ∷ (codes "pm", codes "application/x-perl")
    ∷ (codes "prc", codes "application/x-pilot")
    ∷ (codes "pdb", codes "application/x-pilot")
    ∷ (codes "rar", codes "application/x-rar-compressed")
    ∷ (codes "rpm", codes "application/x-redhat-package-manager")
    ∷ (codes "sea", codes "application/x-sea")
    ∷ (codes "sit", codes "application/x-stuffit")
    ∷ (codes "tcl", codes "application/x-tcl")
    ∷ (codes "tk", codes "application/x-tcl")
    ∷ (codes "der", codes "application/x-x509-ca-cert")
    ∷ (codes "pem", codes "application/x-x509-ca-cert")
    ∷ (codes "crt", codes "application/x-x509-ca-cert")
    ∷ (codes "xpi", codes "application/x-xpinstall")
    ∷ (codes "xhtml", codes "application/xhtml+xml")
    ∷ (codes "xspf", codes "application/xspf+xml")
    ∷ (codes "zip", codes "application/zip")
    ∷ (codes "bin", codes "application/octet-stream")
    ∷ (codes "exe", codes "application/octet-stream")
    ∷ (codes "dll", codes "application/octet-stream")
    ∷ (codes "deb", codes "application/octet-stream")
    ∷ (codes "dmg", codes "application/octet-stream")
    ∷ (codes "iso", codes "application/octet-stream")
    ∷ (codes "img", codes "application/octet-stream")
    ∷ (codes "msi", codes "application/octet-stream")
    ∷ (codes "msp", codes "application/octet-stream")
    ∷ (codes "msm", codes "application/octet-stream")
    ∷ (codes "mid", codes "audio/midi")
    ∷ (codes "midi", codes "audio/midi")
    ∷ (codes "kar", codes "audio/midi")
    ∷ (codes "mp3", codes "audio/mpeg")
    ∷ (codes "ogg", codes "audio/ogg")
    ∷ (codes "m4a", codes "audio/x-m4a")
    ∷ (codes "ra", codes "audio/x-realaudio")
    ∷ (codes "3gpp", codes "video/3gpp")
    ∷ (codes "3gp", codes "video/3gpp")
    ∷ (codes "ts", codes "video/mp2t")
    ∷ (codes "mp4", codes "video/mp4")
    ∷ (codes "mpeg", codes "video/mpeg")
    ∷ (codes "mpg", codes "video/mpeg")
    ∷ (codes "mov", codes "video/quicktime")
    ∷ (codes "webm", codes "video/webm")
    ∷ (codes "flv", codes "video/x-flv")
    ∷ (codes "m4v", codes "video/x-m4v")
    ∷ (codes "mng", codes "video/x-mng")
    ∷ (codes "asx", codes "video/x-ms-asf")
    ∷ (codes "asf", codes "video/x-ms-asf")
    ∷ (codes "wmv", codes "video/x-ms-wmv")
    ∷ (codes "avi", codes "video/x-msvideo")
    ∷ []
